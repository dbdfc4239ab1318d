-- ===== src/Risk/Manager/Evaluate/Permit.antt =====
-- The exact conditions of an approval, without the order and the form of the gates.
use async_trading_engine.Base.{
  ℕ, ◌<◌, ◌≡◌, ◌≢◌, ◌↔◌, true, false, ◌&&◌, Option, none, some, List, arith, leb, length, ◌⊎◌,
  String,
}
use async_trading_engine.Base.Dict
use async_trading_engine.Base.Float.{Float}
use async_trading_engine.Core.Models.{
  red, OrderRequest, MarginCircuitState, day_ms, week_ms, month_ms,
}
use async_trading_engine.Risk.Manager.State.{RiskManager}
use async_trading_engine.Risk.Manager.Gates.{
  prune_orders, is_limit_hit, loss_gate, count_gate, common_entry_gates, sum_risk,
  existing_sector_risk, check_exposure_limits, check_margin_limits, pre_trade_gate,
  check_volatility, volatility_gate, exposure_gate,
}
use async_trading_engine.Risk.Manager.Evaluate.{entry_gates, approve, late_gates, evaluate_ig_order}
use async_trading_engine.Risk.Manager.Evaluate.Approval.{entry_gates-Refuses, late_gates-Refuses}

module _ {F : Type 0} ⦃d : Float F⦄ (m : RiskManager F) where
  open d use {zero, lt, mul, mean}

  -- The current ATR is no spike over the average of the buffer, if there is one of two or more.
  abbrev pub IsCalm : F → Option (List F) → Type 0
  IsCalm current none = Unit
  IsCalm current (some atr_buf) =
      (leb 2 (length atr_buf)
        && lt zero current
        && lt zero (mean atr_buf)
        && lt (mul (mean atr_buf) m.config.volatility_multiplier) current)
      ≡ false

module _ {F : Type 0} ⦃d : Float F⦄ (m : RiskManager F) (equity : F) where
  open d use {zero, le, lt, add, mul, div}

  -- No loss limit is reached, if there is equity to measure it by.
  pub record IsWithinLosses (now : ℕ) : Type 0 where
    pub daily :
        (lt zero equity && is_limit_hit m now day_ms m.config.daily_loss_limit_pct equity) ≡ false
    pub weekly :
        (lt zero equity && is_limit_hit m now week_ms m.config.weekly_loss_limit_pct equity) ≡ false
    pub monthly :
        (lt zero equity && is_limit_hit m now month_ms m.config.monthly_loss_limit_pct equity)
        ≡ false

  -- With a stop distance and positive equity, the open risk and the new risk stay within both caps.
  abbrev pub IsWithinExposure : OrderRequest F → Option F → Type 0
  IsWithinExposure order none = Unit
  IsWithinExposure order (some stop_distance) =
      (le equity zero ≡ true)
      ⊎ (lt m.config.max_total_risk_pct (
            div (add (sum_risk m.budget_ledger m.open_positions) (mul order.size stop_distance))
              equity)
          ≡ false)
        × (lt m.config.max_sector_risk_pct
              (div (add (existing_sector_risk m order.epic) (mul order.size stop_distance)) equity)
            ≡ false)

  -- The breaker is at rest, and margin in use and margin after the fill are within their limits.
  pub record IsWithinMargin (margin_used estimated : F) : Type 0 where
    pub utilisation :
        (lt zero equity && le m.config.max_margin_pct (div margin_used equity)) ≡ false
    pub at_rest : m.margin_breaker.state ≡ MarginCircuitState.normal
    pub projected :
        (lt zero estimated
          && lt zero equity
          && lt zero (add margin_used estimated)
          && lt (div equity (add margin_used estimated)) m.config.margin_halt_ratio)
        ≡ false

  -- All that an order needs.
  pub record Permits (order : OrderRequest F) (margin_used estimated : F) (gate_now now : ℕ)
      : Type 0 where
    pub not_halted : m.trading_halted ≡ false
    pub losses : IsWithinLosses gate_now
    pub below_pause : m.loss_windows.consecutive_losses < m.config.consecutive_loss_pause
    pub below_positions : length m.open_positions < m.config.max_open_positions
    pub exposure : IsWithinExposure order order.stop_distance
    pub margin : IsWithinMargin margin_used estimated
    pub below_rate : length (prune_orders now m.orders_this_hour) < m.config.max_orders_per_hour
    pub calm :
        IsCalm m (Dict.get_or order.epic zero m.current_atr) (Dict.lookup order.epic m.atr_values)
    pub tier : m.drawdown.tier ≢ red

module _ {F : Type 0} ⦃d : Float F⦄ where
  open d use {zero, le, lt}

  loss_gate_iff :
      (m : RiskManager F) (now : ℕ) (size equity : F)
      → (loss_gate m now size equity ≡ none) ↔ IsWithinLosses m equity now
  unfolding loss_gate
  loss_gate_iff m now size equity = ground arith

  count_gate_iff :
      (m : RiskManager F) (size : F)
      → (count_gate m size ≡ none) ↔ (
          (m.loss_windows.consecutive_losses < m.config.consecutive_loss_pause)
          × (length m.open_positions < m.config.max_open_positions))
  unfolding count_gate
  count_gate_iff m size = ground arith

  exposure_iff :
      (m : RiskManager F) (order : OrderRequest F) (equity : F)
      → (check_exposure_limits m order equity ≡ none)
        ↔ IsWithinExposure m equity order order.stop_distance
  unfolding check_exposure_limits exposure_gate
  exposure_iff m order equity = ground arith

  margin_iff :
      (m : RiskManager F) (size margin_used equity estimated : F)
      → (check_margin_limits m size margin_used equity estimated ≡ none)
        ↔ IsWithinMargin m equity margin_used estimated
  unfolding check_margin_limits pre_trade_gate
  margin_iff m size margin_used equity estimated = ground arith

  volatility_iff :
      (m : RiskManager F) (size : F) (epic : String)
      → (check_volatility m size epic ≡ none)
        ↔ IsCalm m (Dict.get_or epic zero m.current_atr) (Dict.lookup epic m.atr_values)
  unfolding check_volatility volatility_gate
  volatility_iff m size epic = ground arith

  late_iff :
      (m : RiskManager F) (order : OrderRequest F)
      → (late_gates m order ≡ none) ↔ (
          (length m.orders_this_hour < m.config.max_orders_per_hour)
          × (check_volatility m order.size order.epic ≡ none)
          × (m.drawdown.tier ≢ red))
  unfolding late_gates
  late_iff m order = ground arith

  entry_iff :
      (m : RiskManager F) (now : ℕ) (order : OrderRequest F) (margin_used equity estimated : F)
      → (entry_gates m now order margin_used equity estimated ≡ none) ↔ (
          (m.trading_halted ≡ false)
          × (loss_gate m now order.size equity ≡ none)
          × (count_gate m order.size ≡ none)
          × (check_exposure_limits m order equity ≡ none)
          × (check_margin_limits m order.size margin_used equity estimated ≡ none))
  unfolding entry_gates common_entry_gates
  entry_iff m now order margin_used equity estimated = ground arith

  approved_iff :
      (m : RiskManager F) (order : OrderRequest F) (margin_used equity estimated : F)
      (gate_now now : ℕ)
      → ((evaluate_ig_order m order margin_used equity estimated gate_now now).1.approved ≡ true)
        ↔ ((entry_gates m gate_now order margin_used equity estimated ≡ none)
            × (late_gates
                  (record m { orders_this_hour = prune_orders now m.orders_this_hour })
                  order
                ≡ none))
  unfolding evaluate_ig_order approve
  approved_iff m order margin_used equity estimated gate_now now = ground (
    arith,
    entry_gates-Refuses m gate_now order margin_used equity estimated,
    late_gates-Refuses (record m { orders_this_hour = prune_orders now m.orders_this_hour }) order,
  )

  -- An order is approved exactly when trading is not halted, no loss limit is reached, the pause
  -- after losses and the limit on positions are not, the risk caps, the margin limits and the hourly
  -- rate leave room, the ATR is calm, and the drawdown tier is not RED.
  pub approved_iff_Permits :
      (m : RiskManager F) (order : OrderRequest F) (margin_used equity estimated : F)
      (gate_now now : ℕ)
      → ((evaluate_ig_order m order margin_used equity estimated gate_now now).1.approved ≡ true)
        ↔ Permits m equity order margin_used estimated gate_now now
  approved_iff_Permits m order margin_used equity estimated gate_now now =
      let pruned = record m { orders_this_hour = prune_orders now m.orders_this_hour } in
      ground (
        arith,
        approved_iff m order margin_used equity estimated gate_now now,
        entry_iff m gate_now order margin_used equity estimated,
        late_iff pruned order,
        loss_gate_iff m gate_now order.size equity,
        count_gate_iff m order.size,
        exposure_iff m order equity,
        margin_iff m order.size margin_used equity estimated,
        volatility_iff pruned order.size order.epic,
      )
