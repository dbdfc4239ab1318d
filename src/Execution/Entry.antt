-- ===== src/Execution/Entry.antt =====
-- src/bot/execution/entry_executor.py. An entry runs under a lock, and while it runs the bot's state
-- is its own; `peers` below is what other tasks do while it waits for the lock.
pub mod Attempt
pub mod Cleared
pub mod Retry
pub mod Permit
pub mod Books
mod Tests
use async_trading_engine.Base.{
  ℕ, ◌*◌, Bool, true, false, not, ◌&&◌, ◌||◌, Option, none, some, List, ◌∷◌, String, if◌then◌else◌,
  is_some,
}
use async_trading_engine.Base.Float.{Float, max}
use async_trading_engine.Base.Dict
use async_trading_engine.Core.Models.{
  Result, ok, failed, Failure, closed_failure, OrderRequest, order_request, OrderResult, buy,
}
use async_trading_engine.Data.Symbols.{member}
use async_trading_engine.Execution.Http.{Link, Net}
use async_trading_engine.Execution.Client.{Body, Payload, has_message}
use async_trading_engine.Execution.Client.Calls.{
  Outcome, place_order, confirm_order, require_tradeable,
}
use async_trading_engine.Execution.Context.{
  Bot, epic_for, find_signal, now_of, refresh_balance, handle_order_filled,
}
use async_trading_engine.Execution.QuoteScale.{ig_pip_value, ig_quote_scale}
use async_trading_engine.Risk.IgMargin.{estimate_margin_gbp, estimate_slippage_pts}
use async_trading_engine.Risk.Manager.State.{RiskManager, RiskDecision}
use async_trading_engine.Risk.Manager.Equity.{equity_for_sizing}
use async_trading_engine.Risk.Manager.Evaluate.{evaluate_ig_order}
use async_trading_engine.Risk.Manager.Positions.{set_risk_budget}
use async_trading_engine.Risk.Sizing.{compute_ig_size}
use async_trading_engine.Risk.SpreadMonitor.{Statistics, is_anomalous}
use async_trading_engine.Strategy.TakeProfit.State.{TakeProfitManager, register_position}
use async_trading_engine.Strategy.TopK.{AssetSignal, attributes_of}
use async_trading_engine.TradingHours.Schedule.{is_safe_for_entry}

module _ {F : Type 0} ⦃d : Float F⦄ where
  open d use {zero, le, lt, sub, mul, div, decimal, ceil, round1, round2}

  -- `round(math.ceil(x / 0.1 - 1e-9) * 0.1, 1)`
  unfoldable pub grid_above : F → F
  grid_above x = round1 (mul (ceil (sub (div x (decimal 1 1)) (decimal 1 9))) (decimal 1 1))

  unfoldable pub snap_size_up_to_grid : F → Option F → F
  unfolding grid_above
  snap_size_up_to_grid size none = grid_above size
  snap_size_up_to_grid size (some min_deal_size) =
      if lt (grid_above size) min_deal_size then grid_above min_deal_size else grid_above size

  -- `_prepare_entry_order`; `none` where the stake is not positive or its division by zero raises.
  -- The table of stop floors, IG_MIN_STOP_PCT, is empty.
  unfoldable pub prepare_entry_order :
      RiskManager F → String → String → F → F → F → Option (OrderRequest F)
  prepare_entry_order m symbol epic current_price equity stop_pct =
      let effective = max stop_pct zero in
      let pip = ig_pip_value symbol in
      elim (compute_ig_size (equity_for_sizing m equity) m.config.risk_per_trade_pct current_price
        effective pip (estimate_slippage_pts symbol current_price pip)) [
          | none ↦ none
          | some size ↦
              if le size zero
              then none
              else some (
                  order_request epic buy size
                    (some (round2 (div (mul current_price effective) pip))))
        ]

  -- `final_size < min_deal_size`
  unfoldable pub is_below_minimum : F → Option F → Bool
  is_below_minimum size none = false
  is_below_minimum size (some min_deal_size) = lt size min_deal_size

  module _ {S : Type 0} (link : Link S (Body F) (Payload F)) where
    -- `place_order`, then `confirm_order` on its reference.
    unfoldable pub place_and_confirm :
        OrderRequest F → Net S (Body F) (Payload F) → Outcome link (OrderResult F)
    place_and_confirm order net =
        let placed = place_order link order net in
        elim placed.0 [
          | ok pending ↦ confirm_order link pending.order_id placed.1
          | failed e ↦ (failed e, placed.1)
        ]

    -- The retry at the snapped stake, or the error again.
    unfoldable pub retry_snapped :
        OrderRequest F
        → Option F
        → Failure
        → Net S (Body F) (Payload F)
        → Outcome link (OrderResult F × F)
    unfolding place_and_confirm has_message
    retry_snapped order min_deal_size e net =
        let snapped = snap_size_up_to_grid order.size min_deal_size in
        elim (has_message "SIZE_INCREMENT" e && not (le snapped order.size)) [
          | false ↦ (failed e, net)
          | true ↦
              let again =
                place_and_confirm
                  (order_request order.epic order.direction snapped order.stop_distance) net in
              elim again.0 [
                | ok confirmed ↦ (ok (confirmed, snapped), again.1)
                | failed f ↦ (failed f, again.1)
              ]
        ]

    -- `_place_with_size_retry`: what is confirmed, with the stake.
    unfoldable pub place_with_size_retry :
        OrderRequest F → Option F → Net S (Body F) (Payload F) → Outcome link (OrderResult F × F)
    unfolding place_and_confirm retry_snapped
    place_with_size_retry order min_deal_size net =
        let first = place_and_confirm order net in
        elim first.0 [
          | ok confirmed ↦ (ok (confirmed, order.size), first.1)
          | failed e ↦ retry_snapped order min_deal_size e first.1
        ]
