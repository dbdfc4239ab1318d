-- ===== src/Risk/Config.antt =====
-- src/bot/risk/risk_config.py. Counts are natural numbers.
use async_trading_engine.Base.{ℕ, Bool, true, ◌&&◌}
use async_trading_engine.Base.Float.{Float}

pub record RiskConfig (F : Type 0) : Type 0 where
  pub risk_per_trade_pct : F
  pub max_position_pct : F
  pub atr_period : ℕ
  pub atr_multiplier : F
  pub max_open_positions : ℕ
  pub max_total_risk_pct : F
  pub max_sector_risk_pct : F
  pub correlation_threshold : F
  pub drawdown_yellow_pct : F
  pub drawdown_orange_pct : F
  pub drawdown_red_pct : F
  pub drawdown_red_confirm_count : ℕ
  pub drawdown_maintenance_guard : Bool
  pub drawdown_tier_rearm_band : F
  pub daily_loss_limit_pct : F
  pub weekly_loss_limit_pct : F
  pub monthly_loss_limit_pct : F
  pub consecutive_loss_pause : ℕ
  pub volatility_atr_lookback : ℕ
  pub volatility_multiplier : F
  pub max_single_order_pct : F
  pub max_price_deviation_pct : F
  pub max_orders_per_hour : ℕ
  pub max_margin_pct : F
  pub ig_overnight_warning_hour_utc : ℕ
  pub margin_halt_ratio : F
  pub margin_defensive_ratio : F
  pub margin_emergency_ratio : F
  pub margin_liquidation_floor : F
  pub fscs_warn_gbp : F
  pub fscs_cap_gbp : F

module _ {F : Type 0} ⦃d : Float F⦄ where
  open d use {zero, le, lt, decimal}

  -- The defaults of the class.
  abbrev pub default_config : RiskConfig F
  default_config = record {
    risk_per_trade_pct = decimal 1 2;
    max_position_pct = decimal 5 2;
    atr_period = 14;
    atr_multiplier = decimal 2 0;
    max_open_positions = 8;
    max_total_risk_pct = decimal 5 2;
    max_sector_risk_pct = decimal 25 3;
    correlation_threshold = decimal 7 1;
    drawdown_yellow_pct = decimal 5 2;
    drawdown_orange_pct = decimal 1 1;
    drawdown_red_pct = decimal 15 2;
    drawdown_red_confirm_count = 3;
    drawdown_maintenance_guard = true;
    drawdown_tier_rearm_band = decimal 1 2;
    daily_loss_limit_pct = decimal 3 2;
    weekly_loss_limit_pct = decimal 5 2;
    monthly_loss_limit_pct = decimal 1 1;
    consecutive_loss_pause = 4;
    volatility_atr_lookback = 20;
    volatility_multiplier = decimal 2 0;
    max_single_order_pct = decimal 5 2;
    max_price_deviation_pct = decimal 3 2;
    max_orders_per_hour = 60;
    max_margin_pct = decimal 5 1;
    ig_overnight_warning_hour_utc = 18;
    margin_halt_ratio = decimal 8 1;
    margin_defensive_ratio = decimal 65 2;
    margin_emergency_ratio = decimal 55 2;
    margin_liquidation_floor = decimal 5 1;
    fscs_warn_gbp = decimal 100_000 0;
    fscs_cap_gbp = decimal 120_000 0;
  }

  -- `0 < v <= 1`
  abbrev positive_pct : F → Bool
  positive_pct v = lt zero v && le v (decimal 1 0)

  -- `0 < v < 1`: the validator `_drawdown_ascending`, which looks at one field at a time.
  abbrev drawdown_ascending : F → Bool
  drawdown_ascending v = lt zero v && lt v (decimal 1 0)

  -- `0 <= v < 1`
  abbrev rearm_band_range : F → Bool
  rearm_band_range v = le zero v && lt v (decimal 1 0)

  -- Whether construction passes the field validators; `false` is the `ValueError`.
  unfoldable pub is_accepted : RiskConfig F → Bool
  is_accepted c =
      positive_pct c.risk_per_trade_pct
      && positive_pct c.max_position_pct
      && drawdown_ascending c.drawdown_yellow_pct
      && drawdown_ascending c.drawdown_orange_pct
      && drawdown_ascending c.drawdown_red_pct
      && rearm_band_range c.drawdown_tier_rearm_band
