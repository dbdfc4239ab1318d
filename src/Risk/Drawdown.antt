-- ===== src/Risk/Drawdown.antt =====
-- src/bot/risk/drawdown.py: equity, its peak, and the drawdown tier with its hysteresis.
-- The tier-change callback is a result: what it would be called with.
pub mod Hysteresis
pub mod Peak
mod Tests
use async_trading_engine.Base.{ℕ, Bool, true, ◌&&◌, Option, none, some, if◌then◌else◌, leb}
use async_trading_engine.Base.Float.{Float, max}
use async_trading_engine.Core.Models.{DrawdownTier, yellow, orange, red, severity, same_tier}
use async_trading_engine.Risk.Config.{RiskConfig}

pub record DrawdownTracker (F : Type 0) : Type 0 where
  pub equity : F
  pub peak_equity : F
  pub tier : DrawdownTier

-- The arguments of `on_tier_change`.
pub record TierChange (F : Type 0) : Type 0 where
  pub old_tier : DrawdownTier
  pub new_tier : DrawdownTier
  pub drawdown : F
  pub equity : F

module _ {F : Type 0} ⦃d : Float F⦄ where
  open d use {zero, le, lt, add, sub, div}

  abbrev pub new_tracker : DrawdownTracker F
  new_tracker = record { equity = zero; peak_equity = zero; tier = DrawdownTier.normal }

  unfoldable pub drawdown_pct : DrawdownTracker F → F
  drawdown_pct t =
      if le t.peak_equity zero then zero else div (sub t.peak_equity t.equity) t.peak_equity

  unfoldable pub tier_for_drawdown : RiskConfig F → F → DrawdownTier
  tier_for_drawdown c dd =
      if le c.drawdown_red_pct dd
      then red
      else if le c.drawdown_orange_pct dd
      then orange
      else if le c.drawdown_yellow_pct dd
      then yellow
      else DrawdownTier.normal

  -- `_tier_with_hysteresis`
  unfoldable pub tier_with_hysteresis : RiskConfig F → F → DrawdownTier → DrawdownTier
  tier_with_hysteresis c dd current =
      let raw = tier_for_drawdown c dd in
      if leb (severity current) (severity raw)
      then raw
      else tier_for_drawdown c (add dd c.drawdown_tier_rearm_band)

  -- The clamped equity is stored and the peak advanced, before the tier is looked at.
  unfoldable pub observe : DrawdownTracker F → F → DrawdownTracker F
  observe t equity =
      let seen = if lt equity zero then zero else equity in
      record t {
        equity = seen;
        peak_equity = if lt t.peak_equity seen then seen else t.peak_equity;
      }

  -- `update_equity`, with the call of `on_tier_change` that it makes, if any.
  unfoldable pub update_equity :
      RiskConfig F → DrawdownTracker F → F → DrawdownTracker F × Option (TierChange F)
  update_equity c t equity =
      let seen = observe t equity in
      let new_tier = tier_with_hysteresis c (drawdown_pct seen) t.tier in
      if same_tier new_tier t.tier then (seen, none) else (
        record seen { tier = new_tier },
        some (record {
          old_tier = t.tier;
          new_tier = new_tier;
          drawdown = drawdown_pct seen;
          equity = seen.equity;
        }),
      )

  unfoldable pub set_peak_equity : DrawdownTracker F → F → DrawdownTracker F
  set_peak_equity t value = record t { peak_equity = max zero value }

  unfoldable pub recompute_tier : RiskConfig F → DrawdownTracker F → DrawdownTracker F
  recompute_tier c t =
      if lt zero t.peak_equity && lt zero t.equity
      then record t { tier = tier_for_drawdown c (drawdown_pct t) }
      else t
