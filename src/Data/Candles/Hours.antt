-- ===== src/Data/Candles/Hours.antt =====
-- The hours of the candles that are emitted for one symbol.
use async_trading_engine.Base.{
  ℕ, suc, ◌≤◌, ◌≡◌, refl, Bool, false, Option, none, some, List, [], ◌∷◌, ◌++◌, String, arith,
  if◌then◌else◌, inl, inr, Bool-cases, sym, ◌≢◌,
}
use mathlib.Core.Path.{subst}
use async_trading_engine.Base.Dict
use async_trading_engine.Base.Dict.{Dict, same_key, same_key_iff}
use async_trading_engine.Base.Float.{Float}
use async_trading_engine.Data.Candles.{
  Bucket, Call, emitted, dropped, Tick, finalise, roll_over, new_bucket, extend_bucket, step_bucket,
  is_refused, ingest_tick,
}

-- The hours of the candles of `symbol` among the calls, in order.
unfoldable pub hours_of : {F : Type 0} → String → List (Call F) → List ℕ
hours_of symbol [] = []
hours_of symbol (emitted c ∷ rest) =
    let later = hours_of symbol rest in
    if same_key c.symbol symbol then c.timestamp ∷ later else later
hours_of symbol (dropped _ _ ∷ rest) = hours_of symbol rest

-- Each number is above the one before it, and the first is `low` or above.
abbrev pub IsIncreasing : ℕ → List ℕ → Type 0
IsIncreasing low [] = Unit
IsIncreasing low (h ∷ rest) = (low ≤ h) × IsIncreasing (suc h) rest

-- No hour below `low` can come: the bucket is at `low` or later, or there is none and `low` is 0.
abbrev IsFrom : {F : Type 0} → ℕ → Option (Bucket F) → Type 0
IsFrom low none = low ≡ 0
IsFrom low (some b) = low ≤ b.hour_start_ms

weaken :
    (low low' : ℕ) (hours : List ℕ) → low' ≤ low → IsIncreasing low hours → IsIncreasing low' hours
weaken low low' [] h k = k
weaken low low' (x ∷ rest) h k = ground (arith, k)

module _ {F : Type 0} ⦃d : Float F⦄ where
  -- A session of prints.
  unfoldable pub ingest_ticks :
      Bool → Dict (Bucket F) → List (Tick F) → Dict (Bucket F) × List (Call F)
  ingest_ticks has_drop buckets [] = (buckets, [])
  ingest_ticks has_drop buckets (t ∷ rest) =
      let (next, calls) = ingest_tick has_drop buckets t in
      let (last, later) = ingest_ticks has_drop next rest in (last, calls ++ later)

  step_same :
      (has_drop : Bool) (o : Option (Bucket F)) (t : Tick F) (later : List (Call F)) (low : ℕ)
      → IsFrom low o
      → ((from : ℕ)
          → IsFrom from (some (step_bucket has_drop o t).0)
          → IsIncreasing from (hours_of t.symbol later))
      → IsIncreasing low (hours_of t.symbol ((step_bucket has_drop o t).1 ++ later))
  unfolding step_bucket roll_over hours_of finalise new_bucket extend_bucket
  step_same has_drop none t later low h k = k low (ground (arith, h))
  step_same has_drop (some b) t later low h k = ground (
    arith,
    same_key_iff t.symbol t.symbol,
    h,
    k low,
    k (suc b.hour_start_ms),
    weaken (suc b.hour_start_ms) low (hours_of t.symbol later),
  )

  step_other :
      (has_drop : Bool) (o : Option (Bucket F)) (t : Tick F) (later : List (Call F))
      (symbol : String)
      → same_key t.symbol symbol ≡ false
      → hours_of symbol ((step_bucket has_drop o t).1 ++ later) ≡ hours_of symbol later
  unfolding step_bucket roll_over hours_of finalise
  step_other has_drop none t later symbol h = refl
  step_other has_drop (some b) t later symbol h = ground arith

  -- If the hours that follow increase from wherever the new bucket allows, so do all the hours.
  abbrev Keeps : String → List (Call F) → ℕ → Dict (Bucket F) × List (Call F) → Type 0
  Keeps symbol later low (next, calls) =
      ((from : ℕ)
        → IsFrom from (Dict.lookup symbol next)
        → IsIncreasing from (hours_of symbol later))
      → IsIncreasing low (hours_of symbol (calls ++ later))

  taken_same :
      (has_drop : Bool) (buckets : Dict (Bucket F)) (t : Tick F) (later : List (Call F)) (low : ℕ)
      → IsFrom low (Dict.lookup t.symbol buckets)
      → let (b, calls) = step_bucket has_drop (Dict.lookup t.symbol buckets) t in
        Keeps t.symbol later low (Dict.insert t.symbol b buckets, calls)
  taken_same has_drop buckets t later low h k =
      let b = (step_bucket has_drop (Dict.lookup t.symbol buckets) t).0 in
      step_same has_drop (Dict.lookup t.symbol buckets) t later low h (λ from g.
        k from (subst (IsFrom from) (sym (Dict.lookup-insert_self t.symbol b buckets)) g))

  taken_other :
      (has_drop : Bool) (buckets : Dict (Bucket F)) (t : Tick F) (symbol : String)
      (later : List (Call F)) (low : ℕ)
      → symbol ≢ t.symbol
      → IsFrom low (Dict.lookup symbol buckets)
      → let (b, calls) = step_bucket has_drop (Dict.lookup t.symbol buckets) t in
        Keeps symbol later low (Dict.insert t.symbol b buckets, calls)
  taken_other has_drop buckets t symbol later low ne h k =
      let b = (step_bucket has_drop (Dict.lookup t.symbol buckets) t).0 in
      rw
        (step_other has_drop (Dict.lookup t.symbol buckets) t later symbol
          (ground (arith, same_key_iff t.symbol symbol, ne)))
        (k low (subst (IsFrom low) (sym (Dict.lookup-insert_ne t.symbol symbol b buckets ne)) h))

  ingest_tick-Keeps :
      (has_drop : Bool) (buckets : Dict (Bucket F)) (t : Tick F) (symbol : String)
      (later : List (Call F)) (low : ℕ)
      → IsFrom low (Dict.lookup symbol buckets)
      → Keeps symbol later low (ingest_tick has_drop buckets t)
  unfolding ingest_tick
  ingest_tick-Keeps has_drop buckets t symbol later low h = elim (Bool-cases (is_refused t)) [
    | inl r ↦ rw r (λ k. k low h)
    | inr r ↦ rw r (elim (Bool-cases (same_key symbol t.symbol)) [
      | inl same ↦
          let eq = (same_key_iff symbol t.symbol).0 same in
          subst
            (λ x.
              IsFrom low (Dict.lookup x buckets)
              → Keeps x later low (
                Dict.insert t.symbol (step_bucket has_drop (Dict.lookup t.symbol buckets) t).0
                    buckets,
                (step_bucket has_drop (Dict.lookup t.symbol buckets) t).1,
              ))
            (sym eq) (taken_same has_drop buckets t later low) h
      | inr other ↦
          taken_other has_drop buckets t symbol later low
            (ground (arith, same_key_iff symbol t.symbol, other)) h
    ])
  ]

  ingest_ticks_from-IsIncreasing :
      (has_drop : Bool) (ticks : List (Tick F)) (buckets : Dict (Bucket F)) (symbol : String)
      (low : ℕ)
      → IsFrom low (Dict.lookup symbol buckets)
      → IsIncreasing low (hours_of symbol (ingest_ticks has_drop buckets ticks).1)
  unfolding ingest_ticks
  ingest_ticks_from-IsIncreasing has_drop [] buckets symbol low h = unfold hours_of in tt
  ingest_ticks_from-IsIncreasing has_drop (t ∷ rest) buckets symbol low h =
      let next = (ingest_tick has_drop buckets t).0 in
      ingest_tick-Keeps has_drop buckets t symbol (ingest_ticks has_drop next rest).1 low h
        (λ from g. ingest_ticks_from-IsIncreasing has_drop rest next symbol from g)

  -- Whatever prints arrive, in whatever order and of whatever symbols, the candles that a new
  -- aggregator emits for one symbol have strictly increasing hours: none twice, none backwards.
  pub ingest_ticks-IsIncreasing :
      (has_drop : Bool) (ticks : List (Tick F)) (symbol : String)
      → IsIncreasing 0 (hours_of symbol (ingest_ticks has_drop [] ticks).1)
  ingest_ticks-IsIncreasing has_drop ticks symbol =
      ingest_ticks_from-IsIncreasing has_drop ticks [] symbol 0 (unfold Dict.lookup in refl)
