-- ===== src/Data/Candles/Bars.antt =====
-- The prices of an emitted candle.
use async_trading_engine.Base.{
  ◌≡◌, Bool, true, Option, none, some, List, [], ◌∷◌, ◌++◌, String, arith, inl, inr, Bool-cases,
  All,
}
use async_trading_engine.Base.Dict
use async_trading_engine.Base.Dict.{Dict}
use async_trading_engine.Base.Float.{Float, IsOrdered, IsNumber}
use async_trading_engine.Data.Candles.{
  Bucket, Call, emitted, dropped, Tick, finalise, roll_over, new_bucket, extend_bucket, step_bucket,
  is_refused, ingest_tick,
}
use async_trading_engine.Data.Candles.Hours.{ingest_ticks}

module _ {F : Type 0} ⦃d : Float F⦄ where
  open d use {le}

  -- Open and close lie between low and high.
  pub record IsBar (open_price high low close : F) : Type 0 where
    pub low_open : le low open_price ≡ true
    pub open_high : le open_price high ≡ true
    pub low_close : le low close ≡ true
    pub close_high : le close high ≡ true

  abbrev pub IsSound : Option (Bucket F) → Type 0
  IsSound none = Unit
  IsSound (some b) = IsBar b.open_price b.high b.low b.close

  -- Every candle among the calls is a confirmed bar.
  abbrev pub AreBars : List (Call F) → Type 0
  AreBars [] = Unit
  AreBars (emitted c ∷ rest) =
      IsBar c.open_price c.high c.low c.close × (c.is_confirmed ≡ true) × AreBars rest
  AreBars (dropped _ _ ∷ rest) = AreBars rest

  AreBars-append : (xs ys : List (Call F)) → AreBars xs → AreBars ys → AreBars (xs ++ ys)
  AreBars-append [] ys h k = k
  AreBars-append (emitted c ∷ xs) ys h k = (h.0, h.1, AreBars-append xs ys h.2 k)
  AreBars-append (dropped _ _ ∷ xs) ys h k = AreBars-append xs ys h k

  roll_over-AreBars :
      (has_drop : Bool) (symbol : String) (b : Bucket F)
      → IsSound (some b)
      → AreBars (roll_over has_drop symbol b)
  unfolding roll_over finalise
  roll_over-AreBars has_drop symbol b h = ground (arith, h)

module _ {F : Type 0} ⦃d : Float F⦄ (laws : IsOrdered F) where
  open d use {le, lt}
  open laws use {le_trans, le_of_lt, le_of_not_lt, number_of_le}

  new_bucket-IsSound : (t : Tick F) → IsNumber t.mid → IsSound (some (new_bucket t))
  unfolding new_bucket
  new_bucket-IsSound t n = record { low_open = n; open_high = n; low_close = n; close_high = n }

  extend_bucket-IsSound :
      (b : Bucket F) (t : Tick F)
      → IsNumber t.mid
      → IsSound (some b)
      → IsSound (some (extend_bucket b t))
  unfolding extend_bucket
  extend_bucket-IsSound b t n h = ground (
    arith,
    h,
    n,
    number_of_le b.open_price b.high h.open_high,
    number_of_le b.low b.open_price h.low_open,
    le_of_lt b.high t.mid,
    le_of_lt t.mid b.low,
    le_of_not_lt t.mid b.high n,
    le_of_not_lt b.low t.mid,
    le_trans b.open_price b.high t.mid,
    le_trans t.mid b.low b.open_price,
  )

  step_bucket-IsSound :
      (has_drop : Bool) (o : Option (Bucket F)) (t : Tick F)
      → IsNumber t.mid
      → IsSound o
      → IsSound (some (step_bucket has_drop o t).0) × AreBars (step_bucket has_drop o t).1
  unfolding step_bucket
  step_bucket-IsSound has_drop none t n h = (new_bucket-IsSound t n, tt)
  step_bucket-IsSound has_drop (some b) t n h = ground (
    arith,
    h,
    new_bucket-IsSound t n,
    extend_bucket-IsSound b t n h,
    roll_over-AreBars has_drop t.symbol b h,
  )

  -- Every bucket of the dict is sound.
  abbrev AllSound : Dict (Bucket F) → Type 0
  AllSound buckets = (symbol : String) → IsSound (Dict.lookup symbol buckets)

  ingest_tick-IsSound :
      (has_drop : Bool) (buckets : Dict (Bucket F)) (t : Tick F)
      → IsNumber t.mid
      → AllSound buckets
      → AllSound (ingest_tick has_drop buckets t).0 × AreBars (ingest_tick has_drop buckets t).1
  unfolding ingest_tick
  ingest_tick-IsSound has_drop buckets t n h = elim (Bool-cases (is_refused t)) [
    | inl r ↦ rw r (h, tt)
    | inr r ↦
        let step = step_bucket-IsSound has_drop (Dict.lookup t.symbol buckets) t n (h t.symbol) in
        let b = (step_bucket has_drop (Dict.lookup t.symbol buckets) t).0 in
        rw r (
          λ symbol. ground (arith, step.0, h symbol, Dict.lookup-insert t.symbol symbol b buckets),
          step.1,
        )
  ]

  ingest_ticks_from-AreBars :
      (has_drop : Bool) (ticks : List (Tick F)) (buckets : Dict (Bucket F))
      → All (λ (t : Tick F). IsNumber t.mid) ticks
      → AllSound buckets
      → AreBars (ingest_ticks has_drop buckets ticks).1
  unfolding ingest_ticks
  ingest_ticks_from-AreBars has_drop [] buckets n h = tt
  ingest_ticks_from-AreBars has_drop (t ∷ rest) buckets n h =
      let (sound, bars) = ingest_tick-IsSound has_drop buckets t n.0 h in
      AreBars-append (ingest_tick has_drop buckets t).1
        (ingest_ticks has_drop (ingest_tick has_drop buckets t).0 rest).1 bars
        (ingest_ticks_from-AreBars has_drop rest (ingest_tick has_drop buckets t).0 n.1 sound)

  -- Every candle that a new aggregator emits, whatever prints arrive, is confirmed, and its open
  -- and close lie between its low and its high, if the prices of the prints are numbers.
  pub ingest_ticks-AreBars :
      (has_drop : Bool) (ticks : List (Tick F))
      → All (λ (t : Tick F). IsNumber t.mid) ticks
      → AreBars (ingest_ticks has_drop [] ticks).1
  unfolding Dict.lookup
  ingest_ticks-AreBars has_drop ticks n =
      ingest_ticks_from-AreBars has_drop ticks [] n (λ symbol. tt)
