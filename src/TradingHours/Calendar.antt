-- ===== src/TradingHours/Calendar.antt =====
-- The parts of a UTC datetime that the schedules read, and the holidays of the NYSE.
use async_trading_engine.Base.{
  ℕ, ◌+◌, ◌-◌, ◌*◌, ◌/◌, ◌%◌, Bool, true, false, List, [], ◌∷◌, if◌then◌else◌, take, eqb,
}

abbrev pub minute_us : ℕ
minute_us = 60_000_000

abbrev pub hour_us : ℕ
hour_us = 3_600_000_000

-- Whole minutes since the epoch.
abbrev pub minutes : ℕ → ℕ
minutes dt = dt / minute_us

-- `dt.hour`
abbrev pub hour : ℕ → ℕ
hour dt = minutes dt / 60 % 24

-- `dt.minute`
abbrev pub minute : ℕ → ℕ
minute dt = minutes dt % 60

-- `dt.date()`, as the number of days since the epoch.
abbrev pub day : ℕ → ℕ
day dt = minutes dt / 1440

-- `_weekday`: Monday is 1; the epoch was a Thursday.
abbrev pub weekday : ℕ → ℕ
weekday dt = (day dt + 3) % 7 + 1

abbrev is_leap : ℕ → Bool
is_leap y = if eqb (y % 4) 0 then (if eqb (y % 100) 0 then eqb (y % 400) 0 else true) else false

abbrev month_lengths : ℕ → List ℕ
month_lengths y =
    31 ∷ (if is_leap y then 29 else 28) ∷ 31 ∷ 30 ∷ 31 ∷ 30 ∷ 31 ∷ 31 ∷ 30 ∷ 31 ∷ 30 ∷ 31 ∷ []

abbrev total : List ℕ → ℕ
total [] = 0
total (n ∷ rest) = n + total rest

-- `date(y, m, d)`, of the years from 1970, as the number of days since the epoch.
abbrev pub date : ℕ → ℕ → ℕ → ℕ
date y m d =
    365 * (y - 1970)
    + ((y - 1) / 4 - 492 - ((y - 1) / 100 - 19) + ((y - 1) / 400 - 4))
    + total (take (m - 1) (month_lengths y))
    + (d - 1)

-- `_US_EQUITY_HOLIDAYS`
abbrev pub us_equity_holidays : List ℕ
us_equity_holidays =
    date 2026 1 1
    ∷ date 2026 1 19
    ∷ date 2026 2 16
    ∷ date 2026 4 3
    ∷ date 2026 5 25
    ∷ date 2026 6 19
    ∷ date 2026 7 3
    ∷ date 2026 9 7
    ∷ date 2026 11 26
    ∷ date 2026 12 25
    ∷ date 2027 1 1
    ∷ date 2027 1 18
    ∷ date 2027 2 15
    ∷ date 2027 3 26
    ∷ date 2027 5 31
    ∷ date 2027 6 18
    ∷ date 2027 7 5
    ∷ date 2027 9 6
    ∷ date 2027 11 25
    ∷ date 2027 12 24
    ∷ []

unfoldable pub contains_day : ℕ → List ℕ → Bool
contains_day n [] = false
contains_day n (m ∷ rest) = if eqb m n then true else contains_day n rest

unfoldable pub is_us_equity_holiday : ℕ → Bool
is_us_equity_holiday dt = contains_day (day dt) us_equity_holidays
