-- ===== src/Data/Candles/Tests.antt =====
-- A run of the aggregator on fixed-point numbers.
use async_trading_engine.Base.{ℕ, ◌+◌, ◌*◌, ◌≡◌, refl, true, List, [], ◌∷◌}
use async_trading_engine.Base.Dict
use async_trading_engine.Base.Fixed.{Fixed, fixed_float, whole, Fixed-IsOrdered}
use async_trading_engine.Core.Models.{hour_ms}
use async_trading_engine.Data.Candles.{
  Tick, hour_of, finalise, roll_over, new_bucket, extend_bucket, step_bucket, is_refused,
  ingest_tick,
}
use async_trading_engine.Data.Candles.Hours.{
  ingest_ticks, hours_of, IsIncreasing, ingest_ticks-IsIncreasing,
}
use async_trading_engine.Data.Candles.Bars.{AreBars, ingest_ticks-AreBars}

abbrev print : ℕ → ℕ → Tick Fixed
print at price = record {
  symbol = "XAU/USD";
  utm_ms = at;
  mid = whole price;
  market_open = true;
  ltv = whole 0;
}

-- A partial hour, a full one with a late print of the hour before, and the start of a third.
abbrev prints : List (Tick Fixed)
prints =
    print (hour_ms + 120_000) 50
    ∷ print (2 * hour_ms) 60
    ∷ print (hour_ms + 180_000) 10
    ∷ print (2 * hour_ms + 60_000) 55
    ∷ print (2 * hour_ms + 120_000) 70
    ∷ print (3 * hour_ms) 65
    ∷ []

run_hours : hours_of "XAU/USD" (ingest_ticks true [] prints).1 ≡ 2 * hour_ms ∷ []
unfolding hours_of ingest_ticks ingest_tick is_refused step_bucket new_bucket extend_bucket
    roll_over finalise hour_of Dict.lookup Dict.insert
run_hours = refl

ingest_ticks-IsIncreasing_example :
    IsIncreasing 0 (hours_of "XAU/USD" (ingest_ticks true [] prints).1)
ingest_ticks-IsIncreasing_example = ingest_ticks-IsIncreasing true prints "XAU/USD"

ingest_ticks-AreBars_example : AreBars (ingest_ticks true [] prints).1
ingest_ticks-AreBars_example =
    ingest_ticks-AreBars Fixed-IsOrdered true prints
      (refl, (refl, (refl, (refl, (refl, (refl, tt))))))
