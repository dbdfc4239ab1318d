-- ===== src/TradingHours/Scan/Reopening.antt =====
-- How long the currency and metal markets stay closed.
use async_trading_engine.Base.{
  ℕ, ◌+◌, ◌-◌, ◌*◌, ◌%◌, ◌≤◌, ◌<◌, ◌≡◌, ◌⊎◌, inl, inr, refl, ◌∙◌, sym, ap, Bool, true, false, some,
  String, arith, Bool-cases,
}
use async_trading_engine.Data.Symbols.{CoarseAssetClass, forex, metal}
use async_trading_engine.TradingHours.Calendar.{minute_us, minutes}
use async_trading_engine.TradingHours.Schedule.{
  class_of, forex_open, metals_open, open_at, is_market_open,
}
use async_trading_engine.TradingHours.Schedule.Weekend.{
  minute_of_week, forex_open_iff, metals_open_iff,
}
use async_trading_engine.TradingHours.Scan.{found, seconds_until_open}
use async_trading_engine.TradingHours.Scan.Forward.{
  is_market_open-minutes, seconds_until_open-within,
}

-- A later minute, at most `bound` minutes on, at which `is_open` holds.
abbrev Reopens : (ℕ → Bool) → ℕ → ℕ → Type 0
Reopens is_open n bound =
    (later : ℕ) × (n < later) × (later ≤ n + bound) × (is_open (later * minute_us) ≡ true)

forex-Reopens : (n : ℕ) → forex_open (n * minute_us) ≡ false → Reopens forex_open n 2880
forex-Reopens n h =
    let w = minute_of_week n in
    let closed : (7020 ≤ w) × (w < 9900) = ground (arith, forex_open_iff n, h) in
    let later : ℕ = n + (9900 - w) in
    (
      later,
      omega (arith, closed),
      omega (arith, closed),
      (forex_open_iff later).1 (inr (omega (arith, closed))),
    )

metals-Reopens : (n : ℕ) → metals_open (n * minute_us) ≡ false → Reopens metals_open n 2940
metals-Reopens n h =
    let w = minute_of_week n in
    let closed : (7080 ≤ w) × (w < 10_020) ⊎ (w < 7080) × (1320 ≤ w % 1440) × (w % 1440 < 1380) =
      ground (arith, metals_open_iff n, h) in
    elim closed [
      | inl weekend ↦
          let later : ℕ = n + (10_020 - w) in
          (
            later,
            omega (arith, weekend),
            omega (arith, weekend),
            (metals_open_iff later).1 (inr (omega (arith, weekend))),
          )
      | inr daily ↦
          let later : ℕ = n + (1380 - w % 1440) in
          (
            later,
            omega (arith, daily),
            omega (arith, daily),
            (metals_open_iff later).1 (inl (omega (arith, daily), inr (omega (arith, daily)))),
          )
    ]

-- The scan finds an opening within `hours`.
abbrev pub OpensWithin : String → ℕ → ℕ → Type 0
OpensWithin symbol now hours =
    (s : ℕ) × (seconds_until_open symbol now ≡ found s) × (s ≤ hours * 3600)

opens_within :
    (symbol : String) (now hours : ℕ)
    → hours ≤ 49
    → (is_market_open symbol (minutes now * minute_us) ≡ false
        → Reopens (is_market_open symbol) (minutes now) (hours * 60))
    → OpensWithin symbol now hours
unfolding seconds_until_open
opens_within symbol now hours short h = elim (Bool-cases (is_market_open symbol now)) [
  | inl open_now ↦ (0, ground (arith, open_now), omega arith)
  | inr closed ↦
      let floor = is_market_open-minutes symbol (minutes now * minute_us) now (omega arith) in
      let (later, after, near, open_there) = h (floor ∙ closed) in
      let (s, at, below) =
        seconds_until_open-within symbol now later after (omega (arith, near, short)) open_there in
      (s, at, omega (arith, below, near))
]

opens_in_class :
    (symbol : String) (now hours : ℕ) (c : CoarseAssetClass) (schedule : ℕ → Bool)
    → hours ≤ 49
    → class_of symbol ≡ some c
    → ((t : ℕ) → open_at (some c) t ≡ schedule t)
    → ((n : ℕ) → schedule (n * minute_us) ≡ false → Reopens schedule n (hours * 60))
    → OpensWithin symbol now hours
unfolding is_market_open
opens_in_class symbol now hours c schedule short e agrees reopens =
    opens_within symbol now hours short (λ closed.
      let same : (t : ℕ) → is_market_open symbol t ≡ schedule t =
        λ t. ap (λ x. open_at x t) e ∙ agrees t in
      let (later, after, near, open_there) =
        reopens (minutes now) (sym (same (minutes now * minute_us)) ∙ closed) in
      (later, after, near, same (later * minute_us) ∙ open_there))

-- A currency pair or a metal of the universe is never closed for longer than the weekend of the
-- metals: from any time, the scan finds an opening, at most 49 hours away.
pub seconds_until_open_bound :
    (symbol : String) (now : ℕ)
    → (class_of symbol ≡ some forex) ⊎ (class_of symbol ≡ some metal)
    → OpensWithin symbol now 49
unfolding open_at
seconds_until_open_bound symbol now (inl e) =
    let (s, at, below) =
      opens_in_class symbol now 48 forex forex_open (omega arith) e (λ t. refl) forex-Reopens in
    (s, at, omega (arith, below))
seconds_until_open_bound symbol now (inr e) =
    opens_in_class symbol now 49 metal metals_open (omega arith) e (λ t. refl) metals-Reopens
