-- ===== src/Data/Candles.antt =====
-- src/bot/data/ig_candle_aggregator.py: hourly candles from one-minute prints.
-- The two callbacks are results. Times are natural numbers, so `utm_ms <= 0` is `utm_ms = 0`.
pub mod Hours
pub mod Bars
mod Tests
use async_trading_engine.Base.{
  ℕ, ◌-◌, ◌*◌, ◌/◌, Bool, true, false, not, ◌||◌, Option, none, some, List, [], ◌∷◌, String,
  if◌then◌else◌, ltb, leb, eqb,
}
use async_trading_engine.Base.Dict
use async_trading_engine.Base.Dict.{Dict}
use async_trading_engine.Base.Float.{Float}
use async_trading_engine.Core.Models.{hour_ms}

pub record Candle (F : Type 0) : Type 0 where
  pub symbol : String
  pub timestamp : ℕ
  pub open_price : F
  pub high : F
  pub low : F
  pub close : F
  pub volume : F
  pub is_confirmed : Bool

-- `_Bucket`
pub record Bucket (F : Type 0) : Type 0 where
  pub hour_start_ms : ℕ
  pub open_price : F
  pub high : F
  pub low : F
  pub close : F
  pub volume : F
  pub was_subscribed_at_open : Bool

-- A call of the emit callback, or of the drop callback.
pub data Call (F : Type 0) : Type 0 where
  emitted : Candle F → Call F
  dropped : String → ℕ → Call F

-- The arguments of `ingest_tick`.
pub record Tick (F : Type 0) : Type 0 where
  pub symbol : String
  pub utm_ms : ℕ
  pub mid : F
  pub market_open : Bool
  pub ltv : F

-- `_MINUTE_MS`
abbrev pub minute_ms : ℕ
minute_ms = 60_000

unfoldable pub hour_of : ℕ → ℕ
hour_of utm_ms = utm_ms / hour_ms * hour_ms

-- `_finalise`
unfoldable pub finalise : {F : Type 0} → String → Bucket F → Candle F
finalise symbol b = record {
  symbol = symbol;
  timestamp = b.hour_start_ms;
  open_price = b.open_price;
  high = b.high;
  low = b.low;
  close = b.close;
  volume = b.volume;
  is_confirmed = true;
}

-- What is announced of a bucket whose hour is over; `has_drop` says whether there is a drop callback.
unfoldable pub roll_over : {F : Type 0} → Bool → String → Bucket F → List (Call F)
roll_over has_drop symbol b =
    if b.was_subscribed_at_open
    then emitted (finalise symbol b) ∷ []
    else if has_drop
    then dropped symbol b.hour_start_ms ∷ []
    else []

module _ {F : Type 0} ⦃d : Float F⦄ where
  open d use {zero, le, lt, add}

  unfoldable pub new_bucket : Tick F → Bucket F
  new_bucket t = record {
    hour_start_ms = hour_of t.utm_ms;
    open_price = t.mid;
    high = t.mid;
    low = t.mid;
    close = t.mid;
    volume = if lt zero t.ltv then t.ltv else zero;
    was_subscribed_at_open = ltb (t.utm_ms - hour_of t.utm_ms) minute_ms;
  }

  -- A print within the hour of the bucket.
  unfoldable pub extend_bucket : Bucket F → Tick F → Bucket F
  extend_bucket b t = record b {
    high = if lt b.high t.mid then t.mid else b.high;
    low = if lt t.mid b.low then t.mid else b.low;
    close = t.mid;
    volume = if lt zero t.ltv then add b.volume t.ltv else b.volume;
  }

  -- `ingest_tick` on the bucket of the symbol, for a print that is not refused at the door.
  unfoldable pub step_bucket : Bool → Option (Bucket F) → Tick F → Bucket F × List (Call F)
  step_bucket has_drop none t = (new_bucket t, [])
  step_bucket has_drop (some b) t =
      if ltb (hour_of t.utm_ms) b.hour_start_ms
      then (b, [])
      else if not (eqb b.hour_start_ms (hour_of t.utm_ms))
      then (new_bucket t, roll_over has_drop t.symbol b)
      else if ltb t.utm_ms b.hour_start_ms
      then (b, [])
      else (extend_bucket b t, [])

  unfoldable pub is_refused : Tick F → Bool
  is_refused t = not t.market_open || leb t.utm_ms 0 || le t.mid zero

  -- `ingest_tick` on the dict of buckets.
  unfoldable pub ingest_tick : Bool → Dict (Bucket F) → Tick F → Dict (Bucket F) × List (Call F)
  ingest_tick has_drop buckets t =
      if is_refused t
      then (buckets, [])
      else let (b, calls) = step_bucket has_drop (Dict.lookup t.symbol buckets) t in
        (Dict.insert t.symbol b buckets, calls)
