-- ===== src/Core/Wiring/Locked.antt =====
-- A position whose trailing stop has passed its entry price is free of risk from then on.
use async_trading_engine.Base.{◌≡◌, true, some, List, String, arith, Option-cases, inl, inr}
use async_trading_engine.Base.Dict
use async_trading_engine.Base.Dict.{Dict}
use async_trading_engine.Base.Float.{Float, IsOrdered, IsNumber}
use async_trading_engine.Core.Models.{Position}
use async_trading_engine.Core.Wiring.{candle_for, trail_lookup}
use async_trading_engine.Risk.Budgets.{RiskBudgetLedger, live_risk_gbp, risk_after_lookup}
use async_trading_engine.Risk.Budgets.Trailing.{risk_with_trail_locked}
use async_trading_engine.Strategy.TakeProfit.State.{TakeProfitManager, get_trailing_stop}
use async_trading_engine.Strategy.TakeProfit.Price.Ratchet.{
  Tick, is_at_least, evaluate_prices, evaluate_prices-ratchet,
}

module _ {F : Type 0} ⦃d : Float F⦄ (laws : IsOrdered F) where
  open d use {zero, le, lt, sub, mul, div}
  open laws use {not-lt_of_le, zero-IsNumber}

  locked_at :
      (l : RiskBudgetLedger F) (epic_to_candle : Dict String) (m : TakeProfitManager F)
      (epic : String) (p : Position F) (stop : F)
      → get_trailing_stop m (candle_for epic_to_candle epic) ≡ some stop
      → le p.entry_price stop ≡ true
      → IsNumber (sub p.entry_price (div (Dict.get_or epic zero l.budgets) p.quantity))
      → IsNumber (mul p.quantity zero)
      → lt zero p.quantity ≡ true
      → lt zero p.entry_price ≡ true
      → le
          (live_risk_gbp
            (record l { trailing_stop_lookup = some (trail_lookup epic_to_candle m) })
            epic
            p)
          zero
        ≡ true
  unfolding live_risk_gbp risk_after_lookup trail_lookup
  locked_at l epic_to_candle m epic p stop e h n k q r = rw e (
      ground (
        arith,
        zero-IsNumber,
        not-lt_of_le p.quantity zero,
        not-lt_of_le p.entry_price zero,
        risk_with_trail_locked laws (Dict.get_or epic zero l.budgets) p stop h n k,
      ))

  -- Once the trailing stop of a position of positive size and price is at its entry price or
  -- above, the live risk that the ledger computes with the wired lookup is at most zero, whatever
  -- prices come next; the original stop level and the size times zero are numbers.
  pub live_risk_gbp-locked :
      (l : RiskBudgetLedger F) (epic_to_candle : Dict String) (m : TakeProfitManager F)
      (ticks : List (Tick F)) (epic : String) (p : Position F)
      → is_at_least p.entry_price (get_trailing_stop m (candle_for epic_to_candle epic)) ≡ true
      → IsNumber (sub p.entry_price (div (Dict.get_or epic zero l.budgets) p.quantity))
      → IsNumber (mul p.quantity zero)
      → lt zero p.quantity ≡ true
      → lt zero p.entry_price ≡ true
      → le
          (live_risk_gbp
            (record l {
              trailing_stop_lookup = some (trail_lookup epic_to_candle (evaluate_prices m ticks));
            })
            epic
            p)
          zero
        ≡ true
  live_risk_gbp-locked l epic_to_candle m ticks epic p h n k q r =
      let m' = evaluate_prices m ticks in
      let kept =
        evaluate_prices-ratchet laws p.entry_price m ticks (candle_for epic_to_candle epic) h in
      elim (Option-cases (get_trailing_stop m' (candle_for epic_to_candle epic))) [
        | inl e ↦ ground (arith, kept, e)
        | inr (stop, e) ↦
            locked_at l epic_to_candle m' epic p stop e (ground (arith, kept, e)) n k q r
      ]
