-- ===== src/TradingHours/Scan.antt =====
-- The two scans: forwards by minutes for the next opening, backwards by hours for the last bar.
pub mod Forward
pub mod Backward
pub mod Reopening
use async_trading_engine.Base.{
  ℕ, zero, suc, ◌+◌, ◌-◌, ◌*◌, ◌/◌, Bool, true, false, Option, none, some, String, if◌then◌else◌,
  leb,
}
use async_trading_engine.TradingHours.Calendar.{minute_us, hour_us, minutes}
use async_trading_engine.TradingHours.Schedule.{is_market_open}

-- What the loop of `seconds_until_open` comes to; `out_of_fuel` stands for a loop that goes on.
pub data Search : Type 0 where
  found : ℕ → Search
  not_found : Search
  out_of_fuel : Search

-- The loop on `fuel`: the first probe up to `horizon` at which the market is open.
unfoldable pub probe_from : (ℕ → Bool) → ℕ → ℕ → ℕ → Search
probe_from is_open horizon zero probe = out_of_fuel
probe_from is_open horizon (suc fuel) probe =
    let later = probe_from is_open horizon fuel (probe + minute_us) in
    if leb probe horizon then (if is_open probe then found probe else later) else not_found

-- `int((probe - now).total_seconds())`
unfoldable pub seconds_to : ℕ → Search → Search
seconds_to now (found probe) = found ((probe - now) / 1_000_000)
seconds_to now not_found = not_found
seconds_to now out_of_fuel = out_of_fuel

-- The minutes of seven days, and one more.
abbrev pub week_fuel : ℕ
week_fuel = 10_081

-- `now.replace(second=0, microsecond=0) + timedelta(minutes=1)`
abbrev pub first_probe : ℕ → ℕ
first_probe now = minutes now * minute_us + minute_us

abbrev pub horizon_of : ℕ → ℕ
horizon_of now = now + 10_080 * minute_us

unfoldable pub seconds_until_open : String → ℕ → Search
seconds_until_open symbol now =
    if is_market_open symbol now
    then found 0
    else seconds_to now
        (probe_from (is_market_open symbol) (horizon_of now) week_fuel (first_probe now))

-- `_MAX_BACKFILL_LOOKBACK_HOURS`
abbrev pub max_backfill_lookback_hours : ℕ
max_backfill_lookback_hours = 8 * 24

-- The loop of `last_expected_closed_bar_ms`, with `n` rounds to go.
unfoldable pub walk_back : (ℕ → Bool) → ℕ → ℕ → Option ℕ
walk_back is_open zero bar_open = none
walk_back is_open (suc n) bar_open =
    let earlier = walk_back is_open n (bar_open - hour_us) in
    if is_open bar_open then some (bar_open / 1000) else earlier

unfoldable pub last_expected_closed_bar_ms : String → ℕ → Option ℕ
last_expected_closed_bar_ms symbol now =
    walk_back (is_market_open symbol) max_backfill_lookback_hours
      (now / hour_us * hour_us - hour_us)
