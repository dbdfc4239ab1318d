-- ===== src/Risk/Tests.antt =====
-- Runs of the configuration checks, the sector map and the sizing, on fixed-point numbers.
use async_trading_engine.Base.{◌≡◌, refl, true, some}
use async_trading_engine.Base.Int.{pos}
use async_trading_engine.Base.Fixed.{Fixed, fixed_float, whole}
use async_trading_engine.Risk.Config.{RiskConfig, default_config, is_accepted}
use async_trading_engine.Risk.Sectors.{sector_for}
use async_trading_engine.Risk.Sizing.{compute_ig_size, effective_stop_pts}
use async_trading_engine.Data.Symbols.{universe, find_symbol, find_epic, fx, fx_sector}

abbrev config : RiskConfig Fixed
config = default_config

defaults_accepted : is_accepted config ≡ true
unfolding is_accepted
defaults_accepted = refl

-- The tiers need not ascend: a YELLOW line at 50% is accepted over an ORANGE one at 10%.
tiers_unordered : is_accepted (record config { drawdown_yellow_pct = pos 5000 }) ≡ true
unfolding is_accepted
tiers_unordered = refl

-- An EPIC and its symbol are in one sector, and what is not in the universe is in `other`.
sectors_agree : sector_for "CS.D.EURGBP.TODAY.IP" ≡ sector_for "EUR/GBP"
unfolding sector_for universe find_symbol find_epic fx fx_sector
sectors_agree = refl

unknown_sector : sector_for "TSLA" ≡ "other"
unfolding sector_for universe find_symbol find_epic fx fx_sector
unknown_sector = refl

-- One percent of 10000 over a stop of 1% of 2.0 at a pip of 0.0001, with no buffer.
sized :
    compute_ig_size (whole 10_000) (pos 100) (whole 2) (pos 100) (pos 1) (whole 0) ≡ some (pos 5000)
unfolding compute_ig_size effective_stop_pts
sized = refl

unsized :
    compute_ig_size (whole 10_000) (pos 100) (whole 2) (whole 0) (pos 1) (whole 0) ≡ some (whole 0)
unfolding compute_ig_size
unsized = refl
