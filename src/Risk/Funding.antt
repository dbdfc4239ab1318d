-- ===== src/Risk/Funding.antt =====
-- src/bot/risk/funding.py: the estimate of overnight funding. A datetime is its microseconds since
-- the epoch; the default of the clock and the log line are left out.
use async_trading_engine.Base.{ℕ, zero, suc, ◌+◌, ◌*◌, ◌/◌, Bool, String, if◌then◌else◌, eqb}
use async_trading_engine.Base.Float.{Float}
use async_trading_engine.Core.Models.{OrderSide, buy, sell}
use async_trading_engine.Data.Symbols.{AssetClass, forex_major, forex_minor, spot_gold, commodity}
use async_trading_engine.Risk.IgMargin.{classify_symbol, rate_of_notional}
use async_trading_engine.TradingHours.Calendar.{hour_us, weekday}

-- Wednesday
unfoldable pub is_fx_triple_day : ℕ → Bool
is_fx_triple_day now_utc = eqb (weekday now_utc) 3

-- Friday
unfoldable pub is_equity_triple_day : ℕ → Bool
is_equity_triple_day now_utc = eqb (weekday now_utc) 5

-- Whether the roll is charged three times.
unfoldable pub is_triple_day : AssetClass → ℕ → Bool
is_triple_day forex_major now_utc = is_fx_triple_day now_utc
is_triple_day forex_minor now_utc = is_fx_triple_day now_utc
is_triple_day _ now_utc = is_equity_triple_day now_utc

abbrev pub day_us : ℕ
day_us = 24 * hour_us

-- `now_utc.replace(hour=22, ...) + timedelta(days=d)`
unfoldable pub roll_day : ℕ → ℕ → ℕ
roll_day now_utc n = now_utc / day_us * day_us + 22 * hour_us + n * day_us

module _ {F : Type 0} ⦃d : Float F⦄ where
  open d use {le, add, sub, mul, div, decimal}

  -- `_weekday_multiplier`
  unfoldable pub weekday_multiplier : AssetClass → ℕ → F
  unfolding is_triple_day
  weekday_multiplier asset_class now_utc =
      if is_triple_day asset_class now_utc then decimal 30 1 else decimal 10 1

  -- The charge of one roll before the multiplier.
  unfoldable pub base_funding_pct : AssetClass → OrderSide → F
  base_funding_pct forex_major side = div (decimal 15 3) (decimal 3600 1)
  base_funding_pct forex_minor side = div (decimal 15 3) (decimal 3600 1)
  base_funding_pct spot_gold side = div (decimal 34 3) (decimal 3600 1)
  base_funding_pct commodity side = div (decimal 34 3) (decimal 3600 1)
  base_funding_pct _ buy = div (add (decimal 45 3) (decimal 30 3)) (decimal 3650 1)
  base_funding_pct _ sell = div (sub (decimal 30 3) (decimal 45 3)) (decimal 3650 1)

  unfoldable pub daily_funding_pct : AssetClass → OrderSide → ℕ → F
  unfolding weekday_multiplier base_funding_pct
  daily_funding_pct asset_class side now_utc =
      mul (base_funding_pct asset_class side) (weekday_multiplier asset_class now_utc)

  unfoldable pub estimate_overnight_cost_gbp : String → F → F → OrderSide → ℕ → F
  estimate_overnight_cost_gbp symbol size_per_pt ig_level side now_utc =
      rate_of_notional size_per_pt ig_level
        (daily_funding_pct (classify_symbol symbol) side now_utc)

  -- The loop over the days from `n` on, with `k` to go.
  unfoldable pub add_days : AssetClass → OrderSide → ℕ → ℕ → ℕ → F → F
  add_days asset_class side now_utc zero n total = total
  add_days asset_class side now_utc (suc k) n total =
      add_days asset_class side now_utc k (suc n)
        (add total (daily_funding_pct asset_class side (roll_day now_utc n)))

  -- A horizon that is not positive is zero days.
  unfoldable pub estimate_funding_over_horizon_pct : String → OrderSide → ℕ → ℕ → F
  unfolding add_days
  estimate_funding_over_horizon_pct symbol side horizon_days now_utc =
      add_days (classify_symbol symbol) side now_utc horizon_days 0 (Float.zero d)
