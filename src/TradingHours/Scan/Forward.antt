-- ===== src/TradingHours/Scan/Forward.antt =====
-- `seconds_until_open` comes to an end, and finds the next opening.
use async_trading_engine.Base.{
  ℕ, zero, suc, ◌+◌, ◌-◌, ◌*◌, ◌/◌, ◌≤◌, ◌<◌, ◌≡◌, ◌≢◌, ◌⊎◌, inl, inr, refl, ap, ◌∙◌, sym, Bool,
  true, false, Option, none, some, String, arith, leb, Bool-cases,
}
use mathlib.Core.Path.{subst}
use async_trading_engine.Data.Symbols.{CoarseAssetClass, forex, metal, equity}
use async_trading_engine.TradingHours.Calendar.{minute_us, minutes, is_us_equity_holiday}
use async_trading_engine.TradingHours.Schedule.{
  class_of, forex_open, metals_open, us_equity_open, open_at, is_market_open,
}
use async_trading_engine.TradingHours.Scan.{
  Search, found, not_found, out_of_fuel, probe_from, seconds_to, week_fuel, first_probe, horizon_of,
  seconds_until_open,
}

-- A schedule looks at whole minutes only.
open_at-minutes :
    (c : Option CoarseAssetClass) (a b : ℕ) → minutes a ≡ minutes b → open_at c a ≡ open_at c b
unfolding open_at forex_open metals_open us_equity_open is_us_equity_holiday
open_at-minutes none a b h = refl
open_at-minutes (some forex) a b h = rw h refl
open_at-minutes (some metal) a b h = rw h refl
open_at-minutes (some equity) a b h = rw h refl

pub is_market_open-minutes :
    (symbol : String) (a b : ℕ)
    → minutes a ≡ minutes b
    → is_market_open symbol a ≡ is_market_open symbol b
unfolding is_market_open
is_market_open-minutes symbol a b h = open_at-minutes (class_of symbol) a b h

eq-or-lt : (a b : ℕ) → a ≤ b → (b ≡ a) ⊎ (a < b)
eq-or-lt a b h = omega arith

module _ (is_open : ℕ → Bool) (horizon : ℕ) where
  probe_from-ends :
      (fuel probe : ℕ)
      → horizon < probe + fuel * minute_us
      → probe_from is_open horizon (suc fuel) probe ≢ out_of_fuel
  unfolding probe_from
  probe_from-ends zero probe h = ground arith
  probe_from-ends (suc fuel) probe h =
      let ih = probe_from-ends fuel (probe + minute_us) (omega arith) in ground (arith, ih)

  -- The first whole minute from minute `p` on at which the market is open is at time `q`.
  abbrev pub IsFirstFrom : ℕ → ℕ → Type 0
  IsFirstFrom p q =
      (n : ℕ) × (q ≡ n * minute_us)
      × (p ≤ n)
      × (is_open q ≡ true)
      × ((i : ℕ) → p ≤ i → i < n → is_open (i * minute_us) ≡ false)

  first_later :
      (p q : ℕ) → is_open (p * minute_us) ≡ false → IsFirstFrom (suc p) q → IsFirstFrom p q
  first_later p q closed (n, at, above, open_there, before) = (
    n,
    at,
    omega (arith, above),
    open_there,
    λ i h k. elim (eq-or-lt p i h) [
      | inl e ↦ subst (λ x. is_open (x * minute_us) ≡ false) (sym e) closed
      | inr later ↦ before i (omega (arith, later)) k
    ],
  )

  probe_from-first :
      (fuel p q : ℕ) → probe_from is_open horizon fuel (p * minute_us) ≡ found q → IsFirstFrom p q
  unfolding probe_from
  probe_from-first zero p q h = absurd (ground (arith, h))
  probe_from-first (suc fuel) p q h =
      let next : p * minute_us + minute_us ≡ suc p * minute_us = omega arith in
      elim (Bool-cases (leb (p * minute_us) horizon)) [
        | inr past ↦ absurd (ground (arith, h, past))
        | inl near ↦ elim (Bool-cases (is_open (p * minute_us))) [
          | inl open_there ↦
              let at : q ≡ p * minute_us = ground (arith, h, near, open_there) in
              (
                p,
                at,
                omega arith,
                subst (λ x. is_open x ≡ true) (sym at) open_there,
                λ i k l. absurd (omega (arith, k, l)),
              )
          | inr closed ↦ first_later p q closed (
              probe_from-first fuel (suc p) q (
                subst (λ x. probe_from is_open horizon fuel x ≡ found q) next
                  (ground (arith, h, near, closed))))
        ]
      ]

  -- A minute at which the market is open, within the horizon and the fuel, is not passed over.
  probe_from-finds :
      (fuel p n : ℕ)
      → p ≤ n
      → n < p + fuel
      → n * minute_us ≤ horizon
      → is_open (n * minute_us) ≡ true
      → (q : ℕ) × (probe_from is_open horizon fuel (p * minute_us) ≡ found q) × (q ≤ n * minute_us)
  unfolding probe_from
  probe_from-finds zero p n h k l o = absurd (omega (arith, h, k))
  probe_from-finds (suc fuel) p n h k l o =
      let next : suc p * minute_us ≡ p * minute_us + minute_us = omega arith in
      let near : leb (p * minute_us) horizon ≡ true = ground (arith, h, l) in
      elim (Bool-cases (is_open (p * minute_us))) [
        | inl open_there ↦ (p * minute_us, ground (arith, near, open_there), omega (arith, h))
        | inr closed ↦
            let above : suc p ≤ n = elim (eq-or-lt p n h) [
              | inl e ↦ absurd (ground (arith, o, closed, ap is_open (ap (λ x. x * minute_us) e)))
              | inr later ↦ later
            ] in
            let (q, at, below) = probe_from-finds fuel (suc p) n above (omega (arith, k)) l o in
            (
              q,
              ground (
                arith,
                near,
                closed,
                subst (λ x. probe_from is_open horizon fuel x ≡ found q) next at,
              ),
              below,
            )
      ]

seconds_to-ends : (now : ℕ) (s : Search) → s ≢ out_of_fuel → seconds_to now s ≢ out_of_fuel
unfolding seconds_to
seconds_to-ends now (found q) h = ground arith
seconds_to-ends now not_found h = ground arith
seconds_to-ends now out_of_fuel h = absurd (h refl)

-- For every symbol, known or not, and every time, the scan comes to an end: the fuel of the model
-- is enough for each probe of the seven days.
pub seconds_until_open-ends :
    (symbol : String) (now : ℕ) → seconds_until_open symbol now ≢ out_of_fuel
unfolding seconds_until_open
seconds_until_open-ends symbol now =
    let scan = probe_from (is_market_open symbol) (horizon_of now) week_fuel (first_probe now) in
    let ends = seconds_to-ends now scan (
      probe_from-ends (is_market_open symbol) (horizon_of now) 10_080 (first_probe now)
        (omega arith)) in
    ground (arith, ends)

seconds_to-found :
    (now s : ℕ) (r : Search)
    → seconds_to now r ≡ found s
    → (q : ℕ) × (r ≡ found q) × (s ≡ (q - now) / 1_000_000)
unfolding seconds_to
seconds_to-found now s (found q) h = (q, refl, ground (arith, h))
seconds_to-found now s not_found h = absurd (ground (arith, h))
seconds_to-found now s out_of_fuel h = absurd (ground (arith, h))

-- The market opens at `q`, after `now`, and is closed from `now` until then.
abbrev pub OpensFirst : String → ℕ → ℕ → Type 0
OpensFirst symbol now q =
    (now < q)
    × (is_market_open symbol q ≡ true)
    × ((t : ℕ) → now ≤ t → t < q → is_market_open symbol t ≡ false)

first-OpensFirst :
    (symbol : String) (now q : ℕ)
    → is_market_open symbol now ≡ false
    → IsFirstFrom (is_market_open symbol) (horizon_of now) (suc (minutes now)) q
    → OpensFirst symbol now q
first-OpensFirst symbol now q closed (n, at, above, open_there, before) = (
  omega (arith, at, above),
  open_there,
  λ t h k. elim (eq-or-lt (minutes now) (minutes t) (omega (arith, h))) [
    | inl same ↦ is_market_open-minutes symbol t now same ∙ closed
    | inr later ↦
        is_market_open-minutes symbol t (minutes t * minute_us) (omega arith)
        ∙ before (minutes t) (omega (arith, later)) (omega (arith, k, at))
  ],
)

-- A number of seconds that the scan returns is 0 for a market that is open, and otherwise the whole
-- seconds to an opening before which the market is closed at every time, not only at the probes.
pub seconds_until_open-first :
    (symbol : String) (now s : ℕ)
    → seconds_until_open symbol now ≡ found s
    → (is_market_open symbol now ≡ true) × (s ≡ 0)
      ⊎ (q : ℕ) × (s ≡ (q - now) / 1_000_000) × OpensFirst symbol now q
unfolding seconds_until_open
seconds_until_open-first symbol now s h = elim (Bool-cases (is_market_open symbol now)) [
  | inl open_now ↦ inl (open_now, ground (arith, h, open_now))
  | inr closed ↦
      let scan = probe_from (is_market_open symbol) (horizon_of now) week_fuel (first_probe now) in
      let (q, r, e) = seconds_to-found now s scan (ground (arith, h, closed)) in
      let start : first_probe now ≡ suc (minutes now) * minute_us = omega arith in
      inr (
        q,
        e,
        first-OpensFirst symbol now q closed (
            probe_from-first (is_market_open symbol) (horizon_of now) week_fuel (suc (minutes now))
              q
              (subst
                (λ x. probe_from (is_market_open symbol) (horizon_of now) week_fuel x ≡ found q)
                start r)),
      )
]

-- A market that opens within the horizon is found in time.
pub seconds_until_open-within :
    (symbol : String) (now n : ℕ)
    → minutes now < n
    → n ≤ minutes now + 10_080
    → is_market_open symbol (n * minute_us) ≡ true
    → (s : ℕ) × (seconds_until_open symbol now ≡ found s) × (s ≤ (n * minute_us - now) / 1_000_000)
unfolding seconds_until_open seconds_to
seconds_until_open-within symbol now n h k o = elim (Bool-cases (is_market_open symbol now)) [
  | inl open_now ↦ (0, ground (arith, open_now), omega arith)
  | inr closed ↦
      let (q, r, below) =
        probe_from-finds (is_market_open symbol) (horizon_of now) week_fuel (suc (minutes now)) n
          (omega (arith, h)) (omega (arith, k)) (omega (arith, k)) o in
      let start : suc (minutes now) * minute_us ≡ first_probe now = omega arith in
      let at =
        subst (λ x. probe_from (is_market_open symbol) (horizon_of now) week_fuel x ≡ found q) start
          r in
      ((q - now) / 1_000_000, ground (arith, closed, at), omega (arith, below))
]
