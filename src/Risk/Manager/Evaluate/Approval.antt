-- ===== src/Risk/Manager/Evaluate/Approval.antt =====
-- What an approval means, and what an evaluation leaves behind.
use async_trading_engine.Base.{
  ℕ, ◌≡◌, ◌≢◌, refl, true, false, Option, none, some, [], ◌∷◌, ◌++◌, arith, inl, inr, ◌⊎◌,
}
use async_trading_engine.Base.Float.{Float}
use async_trading_engine.Core.Models.{OrderRequest, DrawdownTier, yellow, orange, red, same_tier}
use async_trading_engine.Risk.Manager.State.{RiskDecision, RiskManager}
use async_trading_engine.Risk.Manager.Gates.{
  first_gate, prune_orders, loss_gate, count_gate, common_entry_gates, check_exposure_limits,
  check_margin_limits, pre_trade_gate, check_volatility, volatility_gate, exposure_gate,
}
use async_trading_engine.Risk.Manager.Evaluate.{
  entry_gates, adjusted_size, approve, late_gates, evaluate_ig_order,
}

-- A gate that answers does not approve.
abbrev pub Refuses : {F : Type 0} → ⦃d : Float F⦄ → F → Option (RiskDecision F) → Type 0
Refuses size none = Unit
Refuses ⦃d⦄ size (some r) =
    (r.approved ≡ false) × (r.adjusted_quantity ≡ d.zero) × (r.original_quantity ≡ size)

module _ {F : Type 0} ⦃d : Float F⦄ where
  open d use {zero, le, lt, mul, decimal}

  common_entry_gates-Refuses :
      (m : RiskManager F) (now : ℕ) (size equity : F)
      → Refuses size (common_entry_gates m now size equity)
  unfolding common_entry_gates loss_gate count_gate
  common_entry_gates-Refuses m now size equity = ground arith

  check_exposure_limits-Refuses :
      (m : RiskManager F) (order : OrderRequest F) (equity : F)
      → Refuses order.size (check_exposure_limits m order equity)
  unfolding check_exposure_limits exposure_gate
  check_exposure_limits-Refuses m order equity = ground arith

  check_margin_limits-Refuses :
      (m : RiskManager F) (size margin_used equity estimated : F)
      → Refuses size (check_margin_limits m size margin_used equity estimated)
  unfolding check_margin_limits pre_trade_gate
  check_margin_limits-Refuses m size margin_used equity estimated = ground arith

  pub late_gates-Refuses :
      (m : RiskManager F) (order : OrderRequest F) → Refuses order.size (late_gates m order)
  unfolding late_gates check_volatility volatility_gate
  late_gates-Refuses m order = ground arith

  -- The stake that a tier grants: half of it in YELLOW, a quarter in ORANGE, all of it in NORMAL,
  -- and none in RED.
  abbrev pub Grants : DrawdownTier → F → F → Type 0
  Grants tier size granted =
      (tier ≢ red)
      × (tier ≡ DrawdownTier.normal → granted ≡ size)
      × (tier ≡ yellow → granted ≡ mul size (decimal 5 1))
      × (tier ≡ orange → granted ≡ mul size (decimal 25 2))

  -- What one evaluation may do: refuse with a stake of zero, changing nothing but the history of
  -- orders, or approve, record the order at `now`, and grant the stake of the tier.
  abbrev pub Outcome : RiskManager F → OrderRequest F → ℕ → RiskManager F × RiskDecision F → Type 0
  Outcome m order now (m', r) =
      (r.original_quantity ≡ order.size)
      × ((r.approved ≡ false)
            × (r.adjusted_quantity ≡ zero)
            × ((m' ≡ m)
                ⊎ (m' ≡ record m { orders_this_hour = prune_orders now m.orders_this_hour }))
          ⊎ (r.approved ≡ true)
            × Grants m.drawdown.tier order.size r.adjusted_quantity
            × (m'
                ≡ record m { orders_this_hour = prune_orders now m.orders_this_hour ++ now ∷ [] }))

  adjusted_size-Grants :
      (tier : DrawdownTier) (size : F)
      → same_tier tier red ≡ false
      → Grants tier size (adjusted_size tier size)
  unfolding adjusted_size
  adjusted_size-Grants DrawdownTier.normal size h =
      ((λ e. ground (arith, e)), (λ e. refl), (λ e. ground (arith, e)), (λ e. ground (arith, e)))
  adjusted_size-Grants yellow size h =
      ((λ e. ground (arith, e)), (λ e. ground (arith, e)), (λ e. refl), (λ e. ground (arith, e)))
  adjusted_size-Grants orange size h =
      ((λ e. ground (arith, e)), (λ e. ground (arith, e)), (λ e. ground (arith, e)), (λ e. refl))
  adjusted_size-Grants red size h = ground (arith, h)

  late_gates-calm :
      (m : RiskManager F) (order : OrderRequest F)
      → late_gates m order ≡ none
      → same_tier m.drawdown.tier red ≡ false
  unfolding late_gates
  late_gates-calm m order h = ground (arith, h)

  late_outcome :
      (m : RiskManager F) (order : OrderRequest F) (now : ℕ) (gate : Option (RiskDecision F))
      → Refuses order.size gate
      → (gate ≡ none → same_tier m.drawdown.tier red ≡ false)
      → Outcome m order now (elim gate [
        | some rejection ↦
            (record m { orders_this_hour = prune_orders now m.orders_this_hour }, rejection)
        | none ↦ (
          record m { orders_this_hour = prune_orders now m.orders_this_hour ++ now ∷ [] },
          approve m.drawdown.tier order.size,
        )
      ])
  unfolding approve
  late_outcome m order now none h calm =
      (refl, inr (refl, adjusted_size-Grants m.drawdown.tier order.size (calm refl), refl))
  late_outcome m order now (some r) h calm = (h.2, inl (h.0, h.1, inr refl))

  early_outcome :
      (m : RiskManager F) (order : OrderRequest F) (now : ℕ) (gate : Option (RiskDecision F))
      (later : RiskManager F × RiskDecision F)
      → Refuses order.size gate
      → Outcome m order now later
      → Outcome m order now (elim gate [ some rejection ↦ (m, rejection) | none ↦ later ])
  early_outcome m order now none later h k = k
  early_outcome m order now (some r) later h k = (h.2, inl (h.0, h.1, inl refl))

  first_gate-Refuses :
      (size : F) (a b : Option (RiskDecision F))
      → Refuses size a
      → Refuses size b
      → Refuses size (first_gate a b)
  first_gate-Refuses size none b h k = k
  first_gate-Refuses size (some r) b h k = h

  pub entry_gates-Refuses :
      (m : RiskManager F) (gate_now : ℕ) (order : OrderRequest F) (margin_used equity estimated : F)
      → Refuses order.size (entry_gates m gate_now order margin_used equity estimated)
  unfolding entry_gates
  entry_gates-Refuses m gate_now order margin_used equity estimated =
      first_gate-Refuses order.size (common_entry_gates m gate_now order.size equity) _
        (common_entry_gates-Refuses m gate_now order.size equity)
        (first_gate-Refuses order.size (check_exposure_limits m order equity) _
          (check_exposure_limits-Refuses m order equity)
          (check_margin_limits-Refuses m order.size margin_used equity estimated))

  -- An evaluation either refuses with a stake of zero, and then changes nothing but the history of
  -- orders, which it may prune; or it approves, and then it records the order at `now` in the
  -- pruned history, and grants the whole stake in the tier NORMAL, half of it in YELLOW and a
  -- quarter of it in ORANGE; in RED it does not approve. Both echo the stake that was asked for.
  pub evaluate_ig_order-Outcome :
      (m : RiskManager F) (order : OrderRequest F) (margin_used equity estimated : F)
      (gate_now now : ℕ)
      → Outcome m order now (evaluate_ig_order m order margin_used equity estimated gate_now now)
  unfolding evaluate_ig_order
  evaluate_ig_order-Outcome m order margin_used equity estimated gate_now now =
      early_outcome m order now (entry_gates m gate_now order margin_used equity estimated) _
        (entry_gates-Refuses m gate_now order margin_used equity estimated)
        (late_outcome m order now
          (late_gates (record m { orders_this_hour = prune_orders now m.orders_this_hour }) order)
          (late_gates-Refuses (record m { orders_this_hour = prune_orders now m.orders_this_hour })
            order)
          (late_gates-calm (record m { orders_this_hour = prune_orders now m.orders_this_hour })
            order))
