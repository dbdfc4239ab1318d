-- ===== src/Risk/Manager/Equity/Squeeze.antt =====
-- A margin breaker that is not at rest stops every entry.
use async_trading_engine.Base.{ℕ, ◌≡◌, ◌≢◌, Bool, true, false, arith, Option-cases, inl, inr}
use async_trading_engine.Base.Float.{Float}
use async_trading_engine.Core.Models.{MarginCircuitState, AccountUpdate, OrderRequest}
use async_trading_engine.Risk.Margin
use async_trading_engine.Risk.Margin.{classify, ratio_of}
use async_trading_engine.Risk.Margin.Edges.{update-state}
use async_trading_engine.Risk.Manager.State.{RiskManager, log_event, log_risk_event}
use async_trading_engine.Risk.Manager.Equity.{update_margin_state, log_optional}
use async_trading_engine.Risk.Manager.Evaluate.{evaluate_ig_order}
use async_trading_engine.Risk.Manager.Evaluate.Permit.{approved_iff_Permits}

module _ {F : Type 0} ⦃d : Float F⦄ where
  update_margin_state-breaker :
      (loop : Bool) (t : ℕ) (m : RiskManager F) (u : AccountUpdate F)
      → (update_margin_state loop t m u).0.margin_breaker
        ≡ (Margin.update m.config loop t m.margin_breaker u).breaker
  unfolding update_margin_state log_optional log_risk_event log_event
  update_margin_state-breaker loop t m u =
      elim (Option-cases (Margin.update m.config loop t m.margin_breaker u).logged) [
        | inl e ↦ rw e (ground arith)
        | inr (k, e) ↦ rw e (ground arith)
      ]

  -- After an account push whose ratio is not in the normal band, no order is approved, whatever the
  -- order, the figures that its caller hands over, and the clock.
  pub update_margin_state-refuses :
      (loop : Bool) (t : ℕ) (m : RiskManager F) (u : AccountUpdate F) (order : OrderRequest F)
      (margin_used equity estimated : F) (gate_now now : ℕ)
      → classify m.config (ratio_of u) ≢ MarginCircuitState.normal
      → (evaluate_ig_order
          (update_margin_state loop t m u).0
          order
          margin_used
          equity
          estimated
          gate_now
          now).1.approved
        ≡ false
  update_margin_state-refuses loop t m u order margin_used equity estimated gate_now now h =
      let m' = (update_margin_state loop t m u).0 in
      let permitted = approved_iff_Permits m' order margin_used equity estimated gate_now now in
      ground (
        arith,
        λ (a : (evaluate_ig_order m' order margin_used equity estimated gate_now now).1.approved
              ≡ true).
            (permitted.0 a).margin.at_rest,
        update_margin_state-breaker loop t m u,
        update-state m.config loop t m.margin_breaker u,
      )
