-- ===== src/TradingHours/Scan/Backward.antt =====
-- `last_expected_closed_bar_ms` finds the newest closed bar of an open hour.
use async_trading_engine.Base.{
  ℕ, zero, suc, ◌+◌, ◌-◌, ◌*◌, ◌/◌, ◌≤◌, ◌<◌, ◌≡◌, ◌⊎◌, inl, inr, sym, Bool, true, false, some,
  String, arith, Bool-cases,
}
use mathlib.Core.Path.{subst}
use async_trading_engine.TradingHours.Calendar.{hour_us}
use async_trading_engine.TradingHours.Schedule.{is_market_open}
use async_trading_engine.TradingHours.Scan.{
  walk_back, max_backfill_lookback_hours, last_expected_closed_bar_ms,
}

module _ (is_open : ℕ → Bool) where
  -- Hour `b` is the last open one up to hour `last`.
  abbrev pub IsLastOpen : ℕ → ℕ → Type 0
  IsLastOpen last b =
      (b ≤ last)
      × (is_open (b * hour_us) ≡ true)
      × ((i : ℕ) → b < i → i ≤ last → is_open (i * hour_us) ≡ false)

  last_earlier :
      (last b : ℕ)
      → is_open (suc last * hour_us) ≡ false
      → IsLastOpen last b
      → IsLastOpen (suc last) b
  last_earlier last b closed (below, open_there, after) = (
    omega (arith, below),
    open_there,
    λ i h k. elim (top_or_below i k) [
      | inl e ↦ subst (λ x. is_open (x * hour_us) ≡ false) (sym e) closed
      | inr lower ↦ after i h lower
    ],
  )
    where
      top_or_below : (i : ℕ) → i ≤ suc last → (i ≡ suc last) ⊎ (i ≤ last)
      top_or_below i k = omega arith

  walk_back-last :
      (n last t : ℕ)
      → n ≤ last
      → walk_back is_open n (last * hour_us) ≡ some t
      → (b : ℕ) × (t ≡ b * hour_us / 1000) × (last < b + n) × IsLastOpen last b
  unfolding walk_back
  walk_back-last zero last t h e = absurd (ground (arith, e))
  walk_back-last (suc n) zero t h e = absurd (omega (arith, h))
  walk_back-last (suc n) (suc last) t h e =
      let next : suc last * hour_us - hour_us ≡ last * hour_us = omega arith in
      elim (Bool-cases (is_open (suc last * hour_us))) [
        | inl open_there ↦ (
          suc last,
          ground (arith, e, open_there),
          omega arith,
          (omega arith, open_there, λ i k l. absurd (omega (arith, k, l))),
        )
        | inr closed ↦
            let (b, at, near, found) =
              walk_back-last n last t (omega (arith, h))
                (subst (λ x. walk_back is_open n x ≡ some t) next (ground (arith, e, closed))) in
            (b, at, omega (arith, near), last_earlier last b closed found)
      ]

-- From eight days and an hour after the epoch on, the timestamp that is returned is the opening of a
-- bar that is closed by now, in an hour at whose start the market was open; and at the start of no
-- later bar that is closed by now was it open.
pub last_expected_closed_bar_ms-last :
    (symbol : String) (now t : ℕ)
    → 193 * hour_us ≤ now
    → last_expected_closed_bar_ms symbol now ≡ some t
    → (b : ℕ) × (t ≡ b * 3_600_000)
      × (b * hour_us + hour_us ≤ now)
      × (is_market_open symbol (b * hour_us) ≡ true)
      × ((i : ℕ)
          → b < i
          → i * hour_us + hour_us ≤ now
          → is_market_open symbol (i * hour_us) ≡ false)
unfolding last_expected_closed_bar_ms
last_expected_closed_bar_ms-last symbol now t h e =
    let last : ℕ = now / hour_us - 1 in
    let start : now / hour_us * hour_us - hour_us ≡ last * hour_us = omega (arith, h) in
    let (b, at, near, (below, open_there, after)) =
      walk_back-last (is_market_open symbol) max_backfill_lookback_hours last t (omega (arith, h)) (
        subst (λ x. walk_back (is_market_open symbol) max_backfill_lookback_hours x ≡ some t) start
          e) in
    (
      b,
      omega (arith, at),
      omega (arith, below, h),
      open_there,
      λ i k l. after i k (omega (arith, l)),
    )
