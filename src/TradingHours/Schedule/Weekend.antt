-- ===== src/TradingHours/Schedule/Weekend.antt =====
-- The currency and metal schedules by the minute of the week.
use async_trading_engine.Base.{ℕ, ◌+◌, ◌*◌, ◌/◌, ◌%◌, ◌≤◌, ◌<◌, ◌≡◌, ◌↔◌, ◌⊎◌, true, arith}
use async_trading_engine.TradingHours.Calendar.{minute_us, weekday}
use async_trading_engine.TradingHours.Schedule.{hm, forex_open, metals_open}

-- The minute of the week, from Monday 00:00.
abbrev pub minute_of_week : ℕ → ℕ
minute_of_week n = (n + 4320) % 10_080

weekday_of_week : (n : ℕ) → weekday (n * minute_us) ≡ minute_of_week n / 1440 + 1
weekday_of_week n = omega arith

hm_of_week : (n : ℕ) → hm (n * minute_us) ≡ minute_of_week n % 1440
hm_of_week n = omega arith

pub forex_open_iff :
    (n : ℕ)
    → (forex_open (n * minute_us) ≡ true) ↔ ((minute_of_week n < 7020) ⊎ (9900 ≤ minute_of_week n))
unfolding forex_open
forex_open_iff n =
    let day = weekday_of_week n in let time = hm_of_week n in ground (arith, day, time)

pub metals_open_iff :
    (n : ℕ)
    → (metals_open (n * minute_us) ≡ true) ↔ (
        (minute_of_week n < 7080)
          × ((minute_of_week n % 1440 < 1320) ⊎ (1380 ≤ minute_of_week n % 1440))
        ⊎ (10_020 ≤ minute_of_week n))
unfolding metals_open
metals_open_iff n =
    let day = weekday_of_week n in let time = hm_of_week n in ground (arith, day, time)
