-- ===== src/Risk/Drawdown/Peak.antt =====
-- The high-water mark under updates, and an update that is repeated.
use async_trading_engine.Base.{◌≡◌, true, none, inl, inr, arith, Bool-cases}
use async_trading_engine.Base.Float.{Float, IsOrdered, IsNumber}
use async_trading_engine.Core.Models.{DrawdownTier, severity, same_tier}
use async_trading_engine.Risk.Config.{RiskConfig}
use async_trading_engine.Risk.Drawdown.{
  DrawdownTracker, drawdown_pct, tier_for_drawdown, tier_with_hysteresis, observe, update_equity,
}
use async_trading_engine.Risk.Drawdown.Hysteresis.{same_tier-eq, raw-le-hysteresis}

severity_injective : (a b : DrawdownTier) → severity a ≡ severity b → a ≡ b
severity_injective a b h = ground arith

same_tier_refl : (a : DrawdownTier) → same_tier a a ≡ true
same_tier_refl a = ground arith

-- Equity is not negative and not above the peak.
pub record IsValid {F : Type 0} ⦃d : Float F⦄ (t : DrawdownTracker F) : Type 0 where
  pub nonneg : d.le d.zero t.equity ≡ true
  pub below_peak : d.le t.equity t.peak_equity ≡ true

module _ {F : Type 0} ⦃d : Float F⦄ where
  -- The new state is the observed one but for the tier.
  update_equity-state :
      (c : RiskConfig F) (t : DrawdownTracker F) (equity : F)
      → (update_equity c t equity).0 ≡ record (observe t equity) {
        tier = tier_with_hysteresis c (drawdown_pct (observe t equity)) t.tier;
      }
  unfolding update_equity observe
  update_equity-state c t equity =
      let new_tier = tier_with_hysteresis c (drawdown_pct (observe t equity)) t.tier in
      elim (Bool-cases (same_tier new_tier t.tier)) [
        | inl same ↦ rw (same, same_tier-eq new_tier t.tier same)
        | inr moved ↦ rw moved
      ]

module _ {F : Type 0} ⦃d : Float F⦄ (laws : IsOrdered F) where
  open d use {zero, le, lt, add}
  open laws use {lt_irrefl, le_of_lt, le_of_not_lt, zero-IsNumber, number_of_le}

  observe-IsValid :
      (t : DrawdownTracker F) (equity : F)
      → IsValid t
      → IsNumber equity
      → IsValid (observe t equity) × (le t.peak_equity (observe t equity).peak_equity ≡ true)
  unfolding observe
  observe-IsValid t equity v n = ground (
    arith,
    number_of_le t.equity t.peak_equity v.below_peak,
    le_of_lt t.peak_equity equity,
    le_of_lt t.peak_equity zero,
    le_of_not_lt zero equity zero-IsNumber n,
    le_of_not_lt equity t.peak_equity n,
    le_of_not_lt zero t.peak_equity zero-IsNumber,
    zero-IsNumber,
    n,
  )

  -- From a valid state and an equity that is a number, an update leads to a valid state, and the
  -- peak does not fall.
  update_equity-IsValid :
      (c : RiskConfig F) (t : DrawdownTracker F) (equity : F)
      → IsValid t
      → IsNumber equity
      → IsValid (update_equity c t equity).0
        × (le t.peak_equity (update_equity c t equity).0.peak_equity ≡ true)
  update_equity-IsValid c t equity v n =
      ground (arith, update_equity-state c t equity, observe-IsValid t equity v n)

  hysteresis_idem :
      (c : RiskConfig F) (dd : F) (current : DrawdownTier)
      → le zero c.drawdown_tier_rearm_band ≡ true
      → IsNumber (add dd c.drawdown_tier_rearm_band)
      → tier_with_hysteresis c dd (tier_with_hysteresis c dd current)
        ≡ tier_with_hysteresis c dd current
  unfolding tier_with_hysteresis
  hysteresis_idem c dd current h n = ground (
    arith,
    raw-le-hysteresis laws c dd current h n,
    severity_injective (tier_for_drawdown c dd)
        (tier_for_drawdown c (add dd c.drawdown_tier_rearm_band)),
  )

  observe_idem :
      (t : DrawdownTracker F) (equity : F) (tier : DrawdownTier)
      → observe (record (observe t equity) { tier = tier }) equity
        ≡ record (observe t equity) { tier = tier }
  unfolding observe
  observe_idem t equity tier = ground (arith, lt_irrefl equity, lt_irrefl zero)

  repeat_at :
      (c : RiskConfig F) (t : DrawdownTracker F) (equity : F) (tier : DrawdownTier)
      → tier_with_hysteresis c (drawdown_pct (observe t equity)) tier ≡ tier
      → update_equity c (record (observe t equity) { tier = tier }) equity
        ≡ (record (observe t equity) { tier = tier }, none)
  unfolding update_equity drawdown_pct
  repeat_at c t equity tier h = rw (observe_idem t equity tier) (rw h (rw (same_tier_refl tier)))

  -- Equity that stays where it is moves neither the tier nor anything else, whatever line it is
  -- parked on: with a re-arm band that is not negative, and sums that are numbers, the same reading
  -- again leaves the state as it is and calls no callback.
  update_equity_idem :
      (c : RiskConfig F) (t : DrawdownTracker F) (equity : F)
      → le zero c.drawdown_tier_rearm_band ≡ true
      → IsNumber (add (drawdown_pct (observe t equity)) c.drawdown_tier_rearm_band)
      → update_equity c (update_equity c t equity).0 equity ≡ ((update_equity c t equity).0, none)
  update_equity_idem c t equity h n =
      rw (update_equity-state c t equity)
        (repeat_at c t equity _ (hysteresis_idem c (drawdown_pct (observe t equity)) t.tier h n))
