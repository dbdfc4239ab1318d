-- ===== src/Strategy/TakeProfit/Price/Rules.antt =====
-- When a price closes a position, and for which reason.
use async_trading_engine.Base.{
  ℕ, ◌≡◌, ◌↔◌, Bool, true, false, ◌&&◌, Option, none, some, String, arith, if◌then◌else◌,
}
use async_trading_engine.Base.Dict
use async_trading_engine.Base.Float.{Float}
use async_trading_engine.Strategy.TakeProfit.State.{
  ExitDecision, ExitReason, hold, static_tp, trailing_stop_breakeven, trailing_stop_ratchet,
  time_limit, TakeProfitConfig, PositionTpState, TakeProfitManager,
}
use async_trading_engine.Strategy.TakeProfit.Price.{
  arm, crossed_stop, check_trailing_stop, target_pct, check_static_take_profit, is_past_time,
  check_time_exit, observe_price, apply_rules, evaluate_state, evaluate_price,
}

module _ {F : Type 0} ⦃d : Float F⦄ where
  open d use {zero, le, lt, add, sub, mul, div, decimal}

  -- The price is at the trailing stop or below it, in a state after the stop was raised.
  abbrev pub is_stopped : TakeProfitConfig F → PositionTpState F → F → Bool
  is_stopped c state price =
      c.trailing_enabled
      && lt zero state.entry_stop_pct
      && (elim state.current_trailing_stop [ none ↦ false | some stop ↦ le price stop ])

  -- The price is at the static target or above it.
  abbrev pub is_on_target : TakeProfitConfig F → PositionTpState F → F → Bool
  is_on_target c state price =
      c.static_enabled
      && lt zero state.entry_stop_pct
      && le (mul state.entry_price (add (decimal 1 0) (target_pct c state state.entry_stop_pct)))
          price

  -- The reason that the order of the rules picks.
  abbrev pub reason_for : TakeProfitConfig F → ℕ → PositionTpState F → F → ℕ → ExitReason
  reason_for c pred_len state price now =
      if is_stopped c state price
      then if state.trail_armed then trailing_stop_ratchet else trailing_stop_breakeven
      else if is_on_target c state price
      then static_tp
      else if c.time_enabled && is_past_time c pred_len state now
      then time_limit
      else hold

  apply_rules-reason :
      (c : TakeProfitConfig F) (pred_len : ℕ) (state : PositionTpState F) (price : F) (now : ℕ)
      (profit_pct : F)
      → let (next, e) = apply_rules c pred_len state price now profit_pct in
        (e.reason ≡ reason_for c pred_len next price now)
        × ((e.should_exit ≡ false) ↔ (e.reason ≡ hold))
  unfolding apply_rules check_trailing_stop crossed_stop check_static_take_profit check_time_exit
      arm
  apply_rules-reason c pred_len state price now profit_pct = ground arith

  -- The decision on a price, if the manager makes one, is of this reason, and closes the position
  -- unless the reason is `hold`.
  abbrev pub Decides : ExitReason → Option (ExitDecision F) → Type 0
  Decides reason none = true ≡ false
  Decides reason (some e) = (e.reason ≡ reason) × ((e.should_exit ≡ false) ↔ (e.reason ≡ hold))

  evaluate_state-reason :
      (c : TakeProfitConfig F) (pred_len : ℕ) (state : PositionTpState F) (price : F) (now : ℕ)
      → (le state.entry_price zero && le zero state.entry_price) ≡ false
      → let (next, decision) = evaluate_state c pred_len state price now in
        Decides (reason_for c pred_len next price now) decision
  unfolding evaluate_state observe_price
  evaluate_state-reason c pred_len state price now h =
      let profit = div (sub price state.entry_price) state.entry_price in
      let rules = apply_rules-reason c pred_len (observe_price state price) price now profit in
      ground (arith, h, rules)

  -- For a tracked position whose entry price is not zero, a price leads to a decision, whose reason
  -- is the first that applies to the state it leaves: the trailing stop (ratchet or break-even),
  -- the static target, the time limit, and otherwise `hold`; only `hold` keeps the position.
  pub evaluate_price-reason :
      (m : TakeProfitManager F) (symbol : String) (state : PositionTpState F) (price : F) (now : ℕ)
      → Dict.lookup symbol m.positions ≡ some state
      → (le state.entry_price zero && le zero state.entry_price) ≡ false
      → let next = (evaluate_state m.config m.pred_len state price now).0 in
        (Dict.lookup symbol (evaluate_price m symbol price now).0.positions ≡ some next)
        × Decides
            (reason_for m.config m.pred_len next price now)
            (evaluate_price m symbol price now).1
  unfolding evaluate_price
  evaluate_price-reason m symbol state price now e h =
      let next = (evaluate_state m.config m.pred_len state price now).0 in
      ground (
        arith,
        e,
        Dict.lookup-insert_self symbol next m.positions,
        evaluate_state-reason m.config m.pred_len state price now h,
      )
