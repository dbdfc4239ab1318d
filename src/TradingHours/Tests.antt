-- ===== src/TradingHours/Tests.antt =====
-- Runs of the schedules: 2026-06-05 was a Friday.
use async_trading_engine.Base.{
  ℕ, ◌+◌, ◌*◌, ◌-◌, ◌/◌, ◌≤◌, ◌<◌, ◌≡◌, ◌≢◌, ◌↔◌, ◌⊎◌, inl, refl, true, false, some, arith,
}
use async_trading_engine.Data.Symbols.{forex, metal, universe, find_symbol, fx, fx_sector}
use async_trading_engine.TradingHours.Calendar.{
  minute_us, hour_us, weekday, date, contains_day, is_us_equity_holiday,
}
use async_trading_engine.TradingHours.Schedule.{
  hm, class_of, forex_open, metals_open, us_equity_open, open_at, is_market_open, market_category,
  is_safe_for_entry, in_equity_mark_blackout,
}
use async_trading_engine.TradingHours.Scan.{
  found, out_of_fuel, probe_from, seconds_to, seconds_until_open, walk_back,
  last_expected_closed_bar_ms,
}
use async_trading_engine.TradingHours.Scan.Forward.{
  OpensFirst, seconds_until_open-ends, seconds_until_open-first,
}
use async_trading_engine.TradingHours.Scan.Backward.{last_expected_closed_bar_ms-last}
use async_trading_engine.TradingHours.Scan.Reopening.{OpensWithin, seconds_until_open_bound}
use async_trading_engine.TradingHours.Schedule.Entry.{is_safe_for_entry-in_blackout}

-- A time of a day, in microseconds.
abbrev at : ℕ → ℕ → ℕ → ℕ
at n h m = n * (24 * hour_us) + h * hour_us + m * minute_us

abbrev friday : ℕ
friday = date 2026 6 5

ordinal : friday ≡ 20_609
ordinal = refl

a_friday : weekday (at friday 12 0) ≡ 5
a_friday = refl

-- The evening before the weekend, and the time to Sunday 21:00.
closed_on_friday : is_market_open "EUR/USD" (at friday 21 0) ≡ false
unfolding is_market_open class_of open_at forex_open universe find_symbol fx fx_sector
closed_on_friday = refl

juneteenth : us_equity_open (at (date 2026 6 19) 15 0) ≡ false
unfolding us_equity_open is_us_equity_holiday contains_day
juneteenth = refl

metals : market_category "XAU/USD" ≡ "metals"
unfolding market_category class_of universe find_symbol fx fx_sector
metals = refl

-- On Friday at 21:00 the currency market is closed for two days.
is_forex : class_of "EUR/USD" ≡ some forex
unfolding class_of universe find_symbol fx fx_sector
is_forex = refl

seconds_until_open-ends_example : seconds_until_open "EUR/USD" (at friday 21 0) ≢ out_of_fuel
seconds_until_open-ends_example = seconds_until_open-ends "EUR/USD" (at friday 21 0)

friday_reopens : OpensWithin "EUR/USD" (at friday 21 0) 49
friday_reopens = seconds_until_open_bound "EUR/USD" (at friday 21 0) (inl is_forex)

abbrev wait : ℕ
wait = 60

-- At 22:59 on a weekday the metals have a minute to go.
metals_found : seconds_until_open "XAU/USD" (at (date 2026 6 4) 22 59) ≡ found wait
unfolding seconds_until_open seconds_to probe_from is_market_open class_of open_at metals_open
    universe find_symbol fx fx_sector
metals_found = refl

seconds_until_open-first_example :
    (is_market_open "XAU/USD" (at (date 2026 6 4) 22 59) ≡ true) × (wait ≡ 0)
    ⊎ (q : ℕ) × (wait ≡ (q - at (date 2026 6 4) 22 59) / 1_000_000)
      × OpensFirst "XAU/USD" (at (date 2026 6 4) 22 59) q
seconds_until_open-first_example =
    seconds_until_open-first "XAU/USD" (at (date 2026 6 4) 22 59) wait metals_found

-- On Saturday the newest bar is that of Friday 20:00.
saturday_bar :
    last_expected_closed_bar_ms "EUR/USD" (at (date 2026 6 6) 12 30)
    ≡ some (20_609 * 86_400_000 + 20 * 3_600_000)
unfolding last_expected_closed_bar_ms walk_back is_market_open class_of open_at forex_open universe
    find_symbol fx fx_sector
saturday_bar = refl

last_expected_closed_bar_ms-last_example :
    (b : ℕ) × (20_609 * 86_400_000 + 20 * 3_600_000 ≡ b * 3_600_000)
    × (b * hour_us + hour_us ≤ at (date 2026 6 6) 12 30)
    × (is_market_open "EUR/USD" (b * hour_us) ≡ true)
    × ((i : ℕ)
        → b < i
        → i * hour_us + hour_us ≤ at (date 2026 6 6) 12 30
        → is_market_open "EUR/USD" (i * hour_us) ≡ false)
last_expected_closed_bar_ms-last_example =
    last_expected_closed_bar_ms-last "EUR/USD" (at (date 2026 6 6) 12 30)
      (20_609 * 86_400_000 + 20 * 3_600_000) (omega arith) saturday_bar

is_safe_for_entry-in_blackout_example :
    (is_safe_for_entry "EUR/USD" (at (date 2026 6 4) 22 30) ≡ true) ↔ (
      (is_market_open "EUR/USD" (at (date 2026 6 4) 22 30) ≡ true)
      × ((class_of "EUR/USD" ≡ some forex) × (22 * 60 + 10 ≤ hm (at (date 2026 6 4) 22 30))
          ⊎ (class_of "EUR/USD" ≡ some metal) × (hm (at (date 2026 6 4) 22 30) < 21 * 60 + 55)))
unfolding in_equity_mark_blackout
is_safe_for_entry-in_blackout_example =
    is_safe_for_entry-in_blackout "EUR/USD" (at (date 2026 6 4) 22 30) refl (inl is_forex)
