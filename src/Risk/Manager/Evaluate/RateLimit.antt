-- ===== src/Risk/Manager/Evaluate/RateLimit.antt =====
-- The hourly limit over a whole session of evaluations.
use async_trading_engine.Base.{
  ℕ, ◌+◌, ◌≤◌, ◌<◌, ◌≡◌, refl, true, List, [], ◌∷◌, ◌++◌, arith, if◌then◌else◌, leb, length,
  length-append, inl, inr, All, ap,
}
use async_trading_engine.Base.Float.{Float}
use async_trading_engine.Core.Models.{OrderRequest, hour_ms}
use async_trading_engine.Risk.Config.{RiskConfig}
use async_trading_engine.Risk.Manager.State.{RiskManager, RiskDecision}
use async_trading_engine.Risk.Manager.Gates.{prune_orders}
use async_trading_engine.Risk.Manager.Evaluate.{evaluate_ig_order}
use async_trading_engine.Risk.Manager.Evaluate.Approval.{Outcome, evaluate_ig_order-Outcome}
use async_trading_engine.Risk.Manager.Evaluate.Permit.{approved_iff_Permits}

-- How many of the times lie in the hour up to `now`.
pub recent : ℕ → List ℕ → ℕ
recent now [] = 0
recent now (ts ∷ rest) = (if leb now (ts + hour_ms) then 1 else 0) + recent now rest

recent-le-length : (now : ℕ) (times : List ℕ) → recent now times ≤ length times
unfolding recent
recent-le-length now [] = omega arith
recent-le-length now (ts ∷ rest) = ground (arith, recent-le-length now rest)

recent-append : (now : ℕ) (xs ys : List ℕ) → recent now (xs ++ ys) ≡ recent now xs + recent now ys
unfolding recent
recent-append now [] ys = omega arith
recent-append now (ts ∷ xs) ys = omega (arith, recent-append now xs ys)

recent-prune_orders :
    (now later : ℕ) (orders : List ℕ)
    → now ≤ later
    → recent later (prune_orders now orders) ≡ recent later orders
unfolding recent prune_orders
recent-prune_orders now later [] h = refl
recent-prune_orders now later (ts ∷ rest) h = ground (arith, recent-prune_orders now later rest h)

length-prune_orders-le :
    (now : ℕ) (orders : List ℕ) → length (prune_orders now orders) ≤ length orders
unfolding prune_orders
length-prune_orders-le now [] = omega arith
length-prune_orders-le now (ts ∷ rest) = ground (arith, length-prune_orders-le now rest)

-- An order with what the caller hands over, and the clock readings of its evaluation.
pub record Call (F : Type 0) : Type 0 where
  pub order : OrderRequest F
  pub margin_used : F
  pub equity : F
  pub estimated : F
  pub gate_now : ℕ
  pub now : ℕ

module _ {F : Type 0} ⦃d : Float F⦄ where
  pub evaluate_call : RiskManager F → Call F → RiskManager F × RiskDecision F
  evaluate_call m c =
      evaluate_ig_order m c.order c.margin_used c.equity c.estimated c.gate_now c.now

  -- The orders of a session, and the times at which one was approved.
  pub evaluate_calls : RiskManager F → List (Call F) → RiskManager F × List ℕ
  evaluate_calls m [] = (m, [])
  evaluate_calls m (c ∷ rest) =
      let (next, decision) = evaluate_call m c in
      let (last, times) = evaluate_calls next rest in
      (last, (if decision.approved then c.now ∷ [] else []) ++ times)

  -- One call keeps the history of orders within the limit, and adds what it approves.
  abbrev Tracks : RiskManager F → Call F → ℕ → RiskManager F × RiskDecision F → Type 0
  Tracks m c later (m', r) =
      (m'.config ≡ m.config)
      × (length m'.orders_this_hour ≤ m.config.max_orders_per_hour)
      × (recent later m'.orders_this_hour
          ≡ recent later m.orders_this_hour + recent later (if r.approved then c.now ∷ [] else []))

  Outcome-Tracks :
      (m : RiskManager F) (c : Call F) (later : ℕ) (out : RiskManager F × RiskDecision F)
      → c.now ≤ later
      → length m.orders_this_hour ≤ m.config.max_orders_per_hour
      → (out.1.approved ≡ true
          → length (prune_orders c.now m.orders_this_hour) < m.config.max_orders_per_hour)
      → Outcome m c.order c.now out
      → Tracks m c later out
  Outcome-Tracks m c later (m', r) h k room (q, inl (a, z, inl e)) =
      rw (e, a) (refl, k, unfold recent in omega arith)
  Outcome-Tracks m c later (m', r) h k room (q, inl (a, z, inr e)) =
      rw (e, a)
        (
          refl,
          omega (arith, length-prune_orders-le c.now m.orders_this_hour),
          unfold recent in omega (arith, recent-prune_orders c.now later m.orders_this_hour h),
        )
  Outcome-Tracks m c later (m', r) h k room (q, inr (a, z, e)) =
      rw (e, a)
        (
          refl,
          omega (arith, length-append (prune_orders c.now m.orders_this_hour) (c.now ∷ []), room a),
          omega (
            arith,
            recent-append later (prune_orders c.now m.orders_this_hour) (c.now ∷ []),
            recent-prune_orders c.now later m.orders_this_hour h,
          ),
        )

  evaluate_call-Tracks :
      (m : RiskManager F) (c : Call F) (later : ℕ)
      → c.now ≤ later
      → length m.orders_this_hour ≤ m.config.max_orders_per_hour
      → Tracks m c later (evaluate_call m c)
  unfolding evaluate_call
  evaluate_call-Tracks m c later h k =
      Outcome-Tracks m c later
        (evaluate_ig_order m c.order c.margin_used c.equity c.estimated c.gate_now c.now) h k
        (λ a.
          ((approved_iff_Permits m c.order c.margin_used c.equity c.estimated c.gate_now c.now).0
            a).below_rate)
        (evaluate_ig_order-Outcome m c.order c.margin_used c.equity c.estimated c.gate_now c.now)

  evaluate_calls-recent :
      (m : RiskManager F) (calls : List (Call F)) (later : ℕ)
      → All (λ c. c.now ≤ later) calls
      → length m.orders_this_hour ≤ m.config.max_orders_per_hour
      → (recent later m.orders_this_hour + recent later (evaluate_calls m calls).1
          ≡ recent later (evaluate_calls m calls).0.orders_this_hour)
        × (length (evaluate_calls m calls).0.orders_this_hour ≤ m.config.max_orders_per_hour)
  unfolding evaluate_calls
  evaluate_calls-recent m [] later h k = unfold recent in (omega arith, k)
  evaluate_calls-recent m (c ∷ rest) later h k =
      let out = evaluate_call m c in
      let (same, fits, grown) = evaluate_call-Tracks m c later h.0 k in
      let ih = evaluate_calls-recent out.0 rest later h.1 (rw same fits) in
      (
        omega (
          arith,
          recent-append later (if out.1.approved then c.now ∷ [] else [])
              (evaluate_calls out.0 rest).1,
          grown,
          ih.0,
        ),
        omega (arith, ih.1, ap (λ (r : RiskConfig F). r.max_orders_per_hour) same),
      )

  -- From a manager that holds no more orders than the hourly limit, over any session of
  -- evaluations, at any clock readings up to `later`, no more orders are
  -- approved in the hour up to `later` than the limit allows, those that the manager already holds
  -- included.
  pub evaluate_calls-rate_limited :
      (m : RiskManager F) (calls : List (Call F)) (later : ℕ)
      → All (λ c. c.now ≤ later) calls
      → length m.orders_this_hour ≤ m.config.max_orders_per_hour
      → recent later m.orders_this_hour + recent later (evaluate_calls m calls).1
        ≤ m.config.max_orders_per_hour
  evaluate_calls-rate_limited m calls later h k = omega (
    arith,
    evaluate_calls-recent m calls later h k,
    recent-le-length later (evaluate_calls m calls).0.orders_this_hour,
  )
