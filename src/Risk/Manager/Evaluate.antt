-- ===== src/Risk/Manager/Evaluate.antt =====
-- `evaluate_ig_order`.
pub mod Approval
pub mod RateLimit
pub mod Permit
use async_trading_engine.Base.{
  ℕ, Bool, true, false, Option, none, some, List, [], ◌∷◌, ◌++◌, if◌then◌else◌, leb, length,
}
use async_trading_engine.Base.Float.{Float}
use async_trading_engine.Core.Models.{
  RiskLevel, elevated, halted, DrawdownTier, yellow, orange, red, same_tier, OrderRequest,
}
use async_trading_engine.Risk.Manager.State.{
  Reason, rate_limit, red_tier, approved_in_full, stake_reduced, RiskDecision, RiskManager, reject,
}
use async_trading_engine.Risk.Manager.Gates.{
  first_gate, prune_orders, common_entry_gates, check_exposure_limits, check_margin_limits,
  check_volatility,
}

module _ {F : Type 0} ⦃d : Float F⦄ where
  open d use {zero, le, mul, decimal}

  -- Gates 1 to 7, none of which changes the state. The clock reads `gate_now` in the first of them.
  pub entry_gates : RiskManager F → ℕ → OrderRequest F → F → F → F → Option (RiskDecision F)
  entry_gates m gate_now order margin_used equity estimated =
      first_gate (common_entry_gates m gate_now order.size equity) (
        first_gate (check_exposure_limits m order equity)
          (check_margin_limits m order.size margin_used equity estimated))

  -- Step 10: the stake after the reduction of the drawdown tier.
  pub adjusted_size : DrawdownTier → F → F
  adjusted_size yellow size = mul size (decimal 5 1)
  adjusted_size orange size = mul size (decimal 25 2)
  adjusted_size _ size = size

  -- The decision on an order that has passed every gate.
  pub approve : DrawdownTier → F → RiskDecision F
  approve tier size = record {
    approved = true;
    original_quantity = size;
    adjusted_quantity = adjusted_size tier size;
    reason =
        if le size (adjusted_size tier size)
        then approved_in_full
        else stake_reduced size (adjusted_size tier size) tier;
    risk_level = if same_tier tier DrawdownTier.normal then RiskLevel.normal else elevated;
  }

  -- Gates 8 to 10, on the pruned history of orders.
  pub late_gates : RiskManager F → OrderRequest F → Option (RiskDecision F)
  late_gates m order =
      if leb m.config.max_orders_per_hour (length m.orders_this_hour)
      then some (reject order.size rate_limit elevated)
      else first_gate (check_volatility m order.size order.epic)
          (if same_tier m.drawdown.tier red then some (reject order.size red_tier halted) else none)

  -- `evaluate_ig_order`: the clock reads `gate_now` in the common gates, and `now` after them.
  pub evaluate_ig_order :
      RiskManager F → OrderRequest F → F → F → F → ℕ → ℕ → RiskManager F × RiskDecision F
  evaluate_ig_order m order margin_used equity estimated gate_now now =
      elim (entry_gates m gate_now order margin_used equity estimated) [
        | some rejection ↦ (m, rejection)
        | none ↦
            let pruned = record m { orders_this_hour = prune_orders now m.orders_this_hour } in
            elim (late_gates pruned order) [
              | some rejection ↦ (pruned, rejection)
              | none ↦ (
                record pruned { orders_this_hour = pruned.orders_this_hour ++ now ∷ [] },
                approve m.drawdown.tier order.size,
              )
            ]
      ]
