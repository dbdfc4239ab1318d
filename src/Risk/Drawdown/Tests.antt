-- ===== src/Risk/Drawdown/Tests.antt =====
-- Runs of the drawdown tracker on fixed-point numbers, with the default configuration.
use async_trading_engine.Base.{◌≡◌, refl}
use async_trading_engine.Base.Fixed.{Fixed, fixed_float, whole}
use async_trading_engine.Core.Models.{yellow, orange}
use async_trading_engine.Risk.Config.{RiskConfig, default_config}
use async_trading_engine.Risk.Drawdown.{
  DrawdownTracker, drawdown_pct, tier_for_drawdown, tier_with_hysteresis, observe, update_equity,
}
use async_trading_engine.Risk.Drawdown.Peak.{IsValid}

abbrev config : RiskConfig Fixed
config = default_config

-- A drawdown of 10.5% from a peak of 1000.
abbrev fallen : DrawdownTracker Fixed
fallen = record { equity = whole 895; peak_equity = whole 1000; tier = orange }

-- At 9.5% the band still holds ORANGE, at 8.5% no longer.
parked : (update_equity config fallen (whole 905)).0.tier ≡ orange
unfolding update_equity observe drawdown_pct tier_for_drawdown tier_with_hysteresis
parked = refl

recovered : (update_equity config fallen (whole 915)).0.tier ≡ yellow
unfolding update_equity observe drawdown_pct tier_for_drawdown tier_with_hysteresis
recovered = refl

fallen-IsValid : IsValid fallen
fallen-IsValid = record { nonneg = refl; below_peak = refl }
