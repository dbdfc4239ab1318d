-- ===== src/Risk/Manager/Tests/Positions.antt =====
-- Runs of fills, closes, restarts and the margin breaker.
use async_trading_engine.Base.{◌≡◌, ◌≢◌, refl, true, false, none, some, [], ◌∷◌, String, arith}
use async_trading_engine.Base.Dict
use async_trading_engine.Base.Dict.{same_key_iff}
use async_trading_engine.Base.Int.{pos}
use async_trading_engine.Base.Fixed.{Fixed, fixed_float, whole, Fixed-IsOrdered}
use async_trading_engine.Core.Models.{DrawdownTier, day_ms, AccountUpdate}
use async_trading_engine.Risk.Manager.Gates.{check_volatility}
use async_trading_engine.Risk.Manager.Evaluate.{evaluate_ig_order}
use async_trading_engine.Risk.Fscs
use async_trading_engine.Risk.Budgets
use async_trading_engine.Risk.Manager.Equity.{update_margin_state, equity_for_sizing}
use async_trading_engine.Risk.Margin.{classify, ratio_of}
use async_trading_engine.Risk.Manager.Equity.Squeeze.{update_margin_state-refuses}
use async_trading_engine.Risk.Manager.Positions.{
  position_of, total_exposure_pct, sum_exposure, update_atr, drop_position, seed_position,
  clear_risk_budget, set_risk_budget, set_trailing_stop_lookup,
}
use async_trading_engine.Risk.Manager.Persistence.Restart.{restarted, restarted-forgets}
use async_trading_engine.Risk.Manager.Tests.{config, fresh, held, manager, order}

abbrev cable : String
cable = "CS.D.GBPUSD.TODAY.IP"

abbrev euro : String
euro = "CS.D.EURUSD.TODAY.IP"

other_epic : cable ≢ euro
other_epic = ground (arith, same_key_iff cable euro)

restarted-forgets_example :
    ((restarted manager day_ms).drawdown.tier ≡ DrawdownTier.normal)
    × (check_volatility (restarted manager day_ms) (whole 1) "EPIC" ≡ none)
restarted-forgets_example = restarted-forgets Fixed-IsOrdered manager day_ms (whole 1) "EPIC"

exposure : total_exposure_pct manager ≡ pos 2000
unfolding total_exposure_pct sum_exposure position_of
exposure = refl

-- With a look-back of two, the buffer forgets the first of three values.
buffered :
    let short = record fresh { config = record config { volatility_atr_lookback = 2 } } in
    (update_atr
      (update_atr (update_atr short "E" (whole 1)) "E" (whole 2))
      "E"
      (whole 3)).atr_values
    ≡ ("E", whole 2 ∷ whole 3 ∷ []) ∷ []
unfolding update_atr Dict.lookup Dict.insert
buffered = refl

dropped : drop_position (seed_position fresh "E" held) "E" ≡ (fresh, some held)
unfolding drop_position seed_position Dict.lookup Dict.insert Dict.erase
dropped = refl

budgets_cleared :
    (clear_risk_budget (set_risk_budget fresh "E" (whole 4)) "E").budget_ledger.budgets ≡ []
unfolding clear_risk_budget set_risk_budget Budgets.clear Budgets.set Dict.insert Dict.erase
budgets_cleared = refl

lookup_injected : (set_trailing_stop_lookup fresh none).budget_ledger.trailing_stop_lookup ≡ none
unfolding set_trailing_stop_lookup Budgets.set_trailing_stop_lookup
lookup_injected = refl

sizing_capped : equity_for_sizing fresh (whole 150_000) ≡ whole 120_000
unfolding equity_for_sizing Fscs.cap_for_sizing
sizing_capped = refl

abbrev squeezed : AccountUpdate Fixed
squeezed = record {
  timestamp = 9;
  equity = whole 700;
  margin_required = whole 1000;
  available_to_deal = whole 0;
  unrealised_pnl = whole 0;
}

update_margin_state-refuses_example :
    (evaluate_ig_order
      (update_margin_state true 9 manager squeezed).0
      order
      (whole 0)
      (whole 1000)
      (whole 0)
      day_ms
      day_ms).1.approved
    ≡ false
unfolding classify ratio_of
update_margin_state-refuses_example =
    update_margin_state-refuses true 9 manager squeezed order (whole 0) (whole 1000) (whole 0)
      day_ms day_ms (ground arith)
