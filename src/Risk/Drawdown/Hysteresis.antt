-- ===== src/Risk/Drawdown/Hysteresis.antt =====
-- What the drawdown tiers promise: escalation at once, recovery only past the band.
use async_trading_engine.Base.{◌≤◌, ◌≡◌, true, inl, inr, arith, sym, Bool-cases}
use async_trading_engine.Base.Float.{Float, IsOrdered, IsNumber}
use async_trading_engine.Core.Models.{DrawdownTier, severity, same_tier}
use async_trading_engine.Risk.Config.{RiskConfig}
use async_trading_engine.Risk.Drawdown.{
  DrawdownTracker, drawdown_pct, tier_for_drawdown, tier_with_hysteresis, observe, update_equity,
}

pub same_tier-eq : (a b : DrawdownTier) → same_tier a b ≡ true → a ≡ b
same_tier-eq a b h = ground arith

module _ {F : Type 0} ⦃d : Float F⦄ where
  pub update_equity-tier :
      (c : RiskConfig F) (t : DrawdownTracker F) (equity : F)
      → (update_equity c t equity).0.tier
        ≡ tier_with_hysteresis c (drawdown_pct (observe t equity)) t.tier
  unfolding update_equity observe
  update_equity-tier c t equity =
      let new_tier = tier_with_hysteresis c (drawdown_pct (observe t equity)) t.tier in
      elim (Bool-cases (same_tier new_tier t.tier)) [
        | inl same ↦ rw same (sym (same_tier-eq new_tier t.tier same))
        | inr moved ↦ rw moved
      ]

module _ {F : Type 0} ⦃d : Float F⦄ (laws : IsOrdered F) where
  open d use {zero, le, lt, add}
  open laws use {le_trans, le-add, le_of_lt, le_of_not_lt, zero-IsNumber}

  -- A larger drawdown never has a milder tier.
  pub tier_for_drawdown_mono :
      (c : RiskConfig F) (a b : F)
      → le a b ≡ true
      → severity (tier_for_drawdown c a) ≤ severity (tier_for_drawdown c b)
  unfolding tier_for_drawdown
  tier_for_drawdown_mono c a b h = ground (
    arith,
    le_trans c.drawdown_red_pct a b,
    le_trans c.drawdown_orange_pct a b,
    le_trans c.drawdown_yellow_pct a b,
  )

  pub raw-le-hysteresis :
      (c : RiskConfig F) (dd : F) (current : DrawdownTier)
      → le zero c.drawdown_tier_rearm_band ≡ true
      → IsNumber (add dd c.drawdown_tier_rearm_band)
      → severity (tier_for_drawdown c dd) ≤ severity (tier_with_hysteresis c dd current)
  unfolding tier_with_hysteresis
  raw-le-hysteresis c dd current h n = ground (
    arith,
    tier_for_drawdown_mono c dd (add dd c.drawdown_tier_rearm_band),
    le-add dd c.drawdown_tier_rearm_band h n,
  )

  -- With a re-arm band that is not negative, and sums that are numbers, the tier after an update is
  -- at least as severe as the plain thresholds make the new drawdown.
  update_equity-never_mild :
      (c : RiskConfig F) (t : DrawdownTracker F) (equity : F)
      → le zero c.drawdown_tier_rearm_band ≡ true
      → IsNumber (add (drawdown_pct (observe t equity)) c.drawdown_tier_rearm_band)
      → severity (tier_for_drawdown c (drawdown_pct (observe t equity)))
        ≤ severity (update_equity c t equity).0.tier
  update_equity-never_mild c t equity h n =
      rw (update_equity-tier c t equity)
        (raw-le-hysteresis c (drawdown_pct (observe t equity)) t.tier h n)
