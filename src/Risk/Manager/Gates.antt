-- ===== src/Risk/Manager/Gates.antt =====
-- The gates of `evaluate_ig_order`, each `none` where the order passes.
pub mod Concentration
use async_trading_engine.Base.{
  map, ℕ, ◌+◌, Bool, true, false, not, ◌&&◌, ◌||◌, Option, none, some, List, [], ◌∷◌, String,
  if◌then◌else◌, ltb, leb, length,
}
use async_trading_engine.Base.Dict
use async_trading_engine.Base.Dict.{Dict, same_key}
use async_trading_engine.Base.Float.{Float}
use async_trading_engine.Core.Models.{
  hour_ms, day_ms, week_ms, month_ms, RiskLevel, elevated, critical, halted, MarginCircuitState,
  same_circuit, OrderRequest, Position,
}
use async_trading_engine.Risk.LossWindows.{window_pnl}
use async_trading_engine.Risk.Budgets.{RiskBudgetLedger, live_risk_gbp}
use async_trading_engine.Risk.Sectors.{sector_for}
use async_trading_engine.Risk.Manager.State.{
  Reason, daily_limit, weekly_limit, monthly_limit, paused, max_positions, total_risk, sector_risk,
  margin_utilisation, breaker_active, pre_trade_margin, volatility, RiskDecision, RiskManager,
  reject,
}

-- The first gate that rejects.
abbrev pub first_gate : {A : Type 0} → Option A → Option A → Option A
first_gate none next = next
first_gate (some r) next = some r

-- `_prune_order_history` on the deque of timestamps.
unfoldable pub prune_orders : ℕ → List ℕ → List ℕ
prune_orders now [] = []
prune_orders now (ts ∷ rest) =
    let pruned = prune_orders now rest in if ltb (ts + hour_ms) now then pruned else ts ∷ rest

module _ {F : Type 0} ⦃d : Float F⦄ where
  open d use {zero, le, lt, add, mul, div, neg, sum, mean}

  -- `self._window_pnl(now_ms, window) <= -(limit * equity)`
  unfoldable pub is_limit_hit : RiskManager F → ℕ → ℕ → F → F → Bool
  is_limit_hit m now window limit equity =
      le (window_pnl m.loss_windows now window) (neg (mul limit equity))

  -- Gates 2 to 4: the loss limits.
  unfoldable pub loss_gate : RiskManager F → ℕ → F → F → Option (RiskDecision F)
  loss_gate m now size equity =
      if not (lt zero equity)
      then none
      else if is_limit_hit m now day_ms m.config.daily_loss_limit_pct equity
      then some (reject size daily_limit critical)
      else if is_limit_hit m now week_ms m.config.weekly_loss_limit_pct equity
      then some (reject size weekly_limit critical)
      else if is_limit_hit m now month_ms m.config.monthly_loss_limit_pct equity
      then some (reject size monthly_limit critical)
      else none

  -- Gates 5 and 6: consecutive losses and open positions.
  unfoldable pub count_gate : RiskManager F → F → Option (RiskDecision F)
  count_gate m size =
      if leb m.config.consecutive_loss_pause m.loss_windows.consecutive_losses
      then some (reject size (paused m.loss_windows.consecutive_losses) elevated)
      else if leb m.config.max_open_positions (length m.open_positions)
      then some (reject size max_positions elevated)
      else none

  -- `_common_entry_gates`, with the clock at `now`.
  unfoldable pub common_entry_gates : RiskManager F → ℕ → F → F → Option (RiskDecision F)
  common_entry_gates m now size equity =
      if m.trading_halted
      then some (reject size (Reason.trading_halted m.halt_reason) halted)
      else first_gate (loss_gate m now size equity) (count_gate m size)

  -- Python's `sum` of the live risks.
  unfoldable pub sum_risk : RiskBudgetLedger F → Dict (Position F) → F
  sum_risk l positions = sum (map (λ (e : String × Position F). live_risk_gbp l e.0 e.1) positions)

  -- The loop that fills `existing_sector_risk`.
  unfoldable pub fill_sector_risk : RiskBudgetLedger F → Dict F → Dict (Position F) → Dict F
  fill_sector_risk l risk [] = risk
  fill_sector_risk l risk ((epic, p) ∷ rest) =
      let sector = sector_for epic in
      fill_sector_risk l
        (Dict.insert sector (add (Dict.get_or sector zero risk) (live_risk_gbp l epic p)) risk) rest

  -- The risk in the sector of `epic` that is open already.
  unfoldable pub existing_sector_risk : RiskManager F → String → F
  existing_sector_risk m epic =
      Dict.get_or (sector_for epic) zero (fill_sector_risk m.budget_ledger [] m.open_positions)

  -- `_check_exposure_limits` for an order with a stop distance.
  unfoldable pub exposure_gate : RiskManager F → OrderRequest F → F → F → Option (RiskDecision F)
  exposure_gate m order equity stop_distance =
      let existing = sum_risk m.budget_ledger m.open_positions in
      let proposed = mul order.size stop_distance in
      let total_pct = div (add existing proposed) equity in
      let in_sector = existing_sector_risk m order.epic in
      let sector_pct = div (add in_sector proposed) equity in
      if lt m.config.max_total_risk_pct total_pct
      then some (reject order.size (total_risk total_pct existing proposed) elevated)
      else if lt m.config.max_sector_risk_pct sector_pct
      then some (
          reject order.size (sector_risk (sector_for order.epic) sector_pct in_sector proposed)
            elevated)
      else none

  -- `_check_exposure_limits`
  unfoldable pub check_exposure_limits :
      RiskManager F → OrderRequest F → F → Option (RiskDecision F)
  check_exposure_limits m order equity = elim order.stop_distance [
    | none ↦ none
    | some stop_distance ↦
        if le equity zero then none else exposure_gate m order equity stop_distance
  ]

  -- Gate 7c: the projected ratio of equity to margin.
  unfoldable pub pre_trade_gate : RiskManager F → F → F → F → F → Option (RiskDecision F)
  pre_trade_gate m size margin_used equity estimated =
      let projected_margin = add margin_used estimated in
      let projected_ratio = div equity projected_margin in
      if lt zero estimated
        && lt zero equity
        && lt zero projected_margin
        && lt projected_ratio m.config.margin_halt_ratio
      then some (reject size (pre_trade_margin projected_ratio) critical)
      else none

  -- `_check_margin_limits`
  unfoldable pub check_margin_limits : RiskManager F → F → F → F → F → Option (RiskDecision F)
  check_margin_limits m size margin_used equity estimated =
      if lt zero equity && le m.config.max_margin_pct (div margin_used equity)
      then some (reject size (margin_utilisation (div margin_used equity)) critical)
      else if not (same_circuit m.margin_breaker.state MarginCircuitState.normal)
      then some
          (reject size (breaker_active m.margin_breaker.state m.margin_breaker.ratio) critical)
      else pre_trade_gate m size margin_used equity estimated

  -- The ATR of the buffer `atr_buf` against the current one.
  unfoldable pub volatility_gate : RiskManager F → F → F → List F → Option (RiskDecision F)
  volatility_gate m size current atr_buf =
      let avg = mean atr_buf in
      if leb 2 (length atr_buf)
        && lt zero current
        && lt zero avg
        && lt (mul avg m.config.volatility_multiplier) current
      then some (reject size (volatility current avg) critical)
      else none

  -- `_check_volatility_circuit_breaker`
  unfoldable pub check_volatility : RiskManager F → F → String → Option (RiskDecision F)
  check_volatility m size epic = elim (Dict.lookup epic m.atr_values) [
    | none ↦ none
    | some atr_buf ↦ volatility_gate m size (Dict.get_or epic zero m.current_atr) atr_buf
  ]
