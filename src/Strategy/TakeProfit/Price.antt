-- ===== src/Strategy/TakeProfit/Price.antt =====
-- `evaluate_price`: the trailing stop, the static target and the time limit.
pub mod Ratchet
pub mod Rules
use async_trading_engine.Base.{
  ℕ, ◌+◌, ◌*◌, Bool, true, false, not, ◌&&◌, Option, none, some, String, if◌then◌else◌,
}
use async_trading_engine.Base.Int.{ℤ, pos, sub_ℕ, ◌+ℤ◌, leb_ℤ, ltb_ℤ}
use async_trading_engine.Base.Dict
use async_trading_engine.Base.Float.{Float, max, div?}
use async_trading_engine.Core.Models.{hour_ms}
use async_trading_engine.Strategy.TakeProfit.State.{
  ExitDecision, ExitReason, static_tp, trailing_stop_breakeven, trailing_stop_ratchet, time_limit,
  holding, leave, TakeProfitConfig, PositionTpState, TakeProfitManager,
}

-- The first rule that fires.
abbrev pub first_exit : {F : Type 0} → Option (ExitDecision F) → ExitDecision F → ExitDecision F
first_exit none next = next
first_exit (some e) next = e

module _ {F : Type 0} ⦃d : Float F⦄ where
  open d use {zero, le, lt, add, sub, mul, decimal, of_nat, trunc}

  -- The stop is replaced when there is none or the new one is higher.
  unfoldable pub raise_stop : Option F → F → Option F
  raise_stop none level = some level
  raise_stop (some old) level = if lt old level then some level else some old

  -- The two stages of `_check_trailing_stop` that arm and raise the stop.
  unfoldable pub arm : TakeProfitConfig F → PositionTpState F → F → F → PositionTpState F
  arm c state profit_pct stop_pct =
      if le (mul stop_pct c.trail_activation_mult) profit_pct
      then record state {
        trail_armed = true;
        breakeven_armed = true;
        current_trailing_stop =
            raise_stop state.current_trailing_stop
              (mul state.peak_price (sub (decimal 1 0) (mul stop_pct c.trail_multiplier)));
      }
      else if not state.breakeven_armed && le (mul stop_pct c.breakeven_activation_mult) profit_pct
      then record state {
        breakeven_armed = true;
        current_trailing_stop =
            raise_stop state.current_trailing_stop
              (mul state.entry_price (add (decimal 1 0) c.breakeven_buffer));
      }
      else state

  -- Its exit, where the price is at the stop or below it.
  unfoldable pub crossed_stop : PositionTpState F → F → Option (ExitDecision F)
  crossed_stop state current_price = elim state.current_trailing_stop [
    | none ↦ none
    | some stop ↦
        if le current_price stop
        then some (
            leave (if state.trail_armed then trailing_stop_ratchet else trailing_stop_breakeven)
              (some stop))
        else none
  ]

  -- `_check_trailing_stop`
  unfoldable pub check_trailing_stop :
      TakeProfitConfig F
      → PositionTpState F
      → F
      → F
      → F
      → PositionTpState F × Option (ExitDecision F)
  check_trailing_stop c state current_price profit_pct stop_pct =
      if not (c.trailing_enabled && lt zero stop_pct) then (state, none) else (
        arm c state profit_pct stop_pct,
        crossed_stop (arm c state profit_pct stop_pct) current_price,
      )

  -- The share of the entry price that the static target asks for.
  unfoldable pub target_pct : TakeProfitConfig F → PositionTpState F → F → F
  target_pct c state stop_pct =
      max (mul stop_pct c.min_rr_multiplier) (elim state.predicted_mfe_pct [
        | some mfe ↦ mul mfe c.kronos_mfe_capture_fraction
        | none ↦ mul state.entry_mean_return c.kronos_target_fraction
      ])

  -- `_check_static_take_profit`
  unfoldable pub check_static_take_profit :
      TakeProfitConfig F → PositionTpState F → F → F → Option (ExitDecision F)
  check_static_take_profit c state current_price stop_pct =
      if not (c.static_enabled && lt zero stop_pct)
      then none
      else let tp_price = mul state.entry_price (add (decimal 1 0) (target_pct c state stop_pct)) in
        if le tp_price current_price then some (leave static_tp (some tp_price)) else none

  -- Whether the position is past its time: the grace after the predicted peak, or the age.
  unfoldable pub is_past_time : TakeProfitConfig F → ℕ → PositionTpState F → ℕ → Bool
  is_past_time c pred_len state now = elim state.predicted_peak_bar [
    | some bar ↦
        ltb_ℤ
          (pos (state.opened_at_ms + bar * state.bar_interval_ms)
            +ℤ trunc (mul c.time_post_peak_grace_hours (of_nat hour_ms)))
          (pos now)
    | none ↦
        leb_ℤ (trunc (mul (mul (of_nat pred_len) c.time_horizon_multiplier) (of_nat hour_ms)))
          (sub_ℕ now state.opened_at_ms)
  ]

  -- `_check_time_exit`
  unfoldable pub check_time_exit :
      TakeProfitConfig F → ℕ → PositionTpState F → ℕ → Option (ExitDecision F)
  check_time_exit c pred_len state now =
      if c.time_enabled && is_past_time c pred_len state now
      then some (leave time_limit none)
      else none

  unfoldable pub observe_price : PositionTpState F → F → PositionTpState F
  observe_price state current_price = record state {
    peak_price = if lt state.peak_price current_price then current_price else state.peak_price;
  }

  -- The rules on a state with its peak updated, at the profit `profit_pct`.
  unfoldable pub apply_rules :
      TakeProfitConfig F → ℕ → PositionTpState F → F → ℕ → F → PositionTpState F × ExitDecision F
  apply_rules c pred_len state current_price now profit_pct =
      let (armed, stopped) =
        check_trailing_stop c state current_price profit_pct state.entry_stop_pct in
      (
        armed,
        first_exit stopped (
            first_exit (check_static_take_profit c armed current_price state.entry_stop_pct)
              (first_exit (check_time_exit c pred_len armed now) holding)),
      )

  -- `evaluate_price` on the state of the symbol; `none` is the `ZeroDivisionError` of an entry price
  -- of zero, which leaves the peak updated.
  unfoldable pub evaluate_state :
      TakeProfitConfig F
      → ℕ
      → PositionTpState F
      → F
      → ℕ
      → PositionTpState F × Option (ExitDecision F)
  evaluate_state c pred_len state current_price now =
      let seen = observe_price state current_price in
      elim (div? (sub current_price seen.entry_price) seen.entry_price) [
        | none ↦ (seen, none)
        | some profit_pct ↦
            let (next, decision) = apply_rules c pred_len seen current_price now profit_pct in
            (next, some decision)
      ]

  -- `evaluate_price`
  unfoldable pub evaluate_price :
      TakeProfitManager F → String → F → ℕ → TakeProfitManager F × Option (ExitDecision F)
  evaluate_price m symbol current_price now = elim (Dict.lookup symbol m.positions) [
    | none ↦ (m, some holding)
    | some state ↦
        let (next, decision) = evaluate_state m.config m.pred_len state current_price now in
        (record m { positions = Dict.insert symbol next m.positions }, decision)
  ]
