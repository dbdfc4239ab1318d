-- ===== src/Risk/Fscs.antt =====
-- src/bot/risk/fscs.py: the warning at the deposit-protection line, with its re-arm band, and the
-- cap on the equity that sizes positions. The callback is a result.
pub mod Warning
use async_trading_engine.Base.{Bool, true, false, ◌&&◌, not, Option, none, some, if◌then◌else◌}
use async_trading_engine.Base.Float.{Float}
use async_trading_engine.Core.Models.{RiskEventKind, fscs_warn}
use async_trading_engine.Risk.Config.{RiskConfig}

module _ {F : Type 0} ⦃d : Float F⦄ where
  open d use {le, lt, sub, decimal}

  -- `_REARM_BAND_GBP`
  abbrev pub rearm_band_gbp : F
  rearm_band_gbp = decimal 1000 0

  -- `FSCSCeiling.update_equity` on the flag `_warned`, with the risk event that it raises.
  unfoldable pub update_equity : RiskConfig F → Bool → F → Bool × Option (RiskEventKind F)
  update_equity c warned equity =
      if not warned && le c.fscs_warn_gbp equity
      then (true, some (fscs_warn equity c.fscs_warn_gbp c.fscs_cap_gbp))
      else if warned && lt equity (sub c.fscs_warn_gbp rearm_band_gbp)
      then (false, none)
      else (warned, none)

  unfoldable pub cap_for_sizing : RiskConfig F → F → F
  cap_for_sizing c equity = if le equity c.fscs_cap_gbp then equity else c.fscs_cap_gbp
