-- ===== src/Data/Store/Tests.antt =====
-- Runs of the store.
use async_trading_engine.Base.{
  ℕ, Bool, true, false, ◌≡◌, refl, none, some, [], ◌∷◌, arith, length, last_n,
}
use async_trading_engine.Base.Fixed.{Fixed, whole}
use async_trading_engine.Base.Dict
use async_trading_engine.Data.Candles.{Candle}
use async_trading_engine.Data.Store.{
  DataStore, latest, replace_latest, add_to, add_candle, get_candles, add_candles, buffer_of,
}
use async_trading_engine.Data.Store.Ascending.{is_ascending, IsKept, add_candles-IsValid}
use async_trading_engine.Data.Store.Stream.{is_stream, get_candles-stream}

abbrev candle : ℕ → Bool → Candle Fixed
candle timestamp confirmed = record {
  symbol = "A";
  timestamp = timestamp;
  open_price = whole 1;
  high = whole 1;
  low = whole 1;
  close = whole 1;
  volume = whole 0;
  is_confirmed = confirmed;
}

abbrev empty_store : DataStore Fixed
empty_store = record { buffer_size = 2; candles = [] }

-- A duplicate and an old candle are dropped, and a confirmed candle supersedes one that forms.
kept :
    get_candles "A" none (
      add_candles
        (candle 1 true
          ∷ candle 2 false
          ∷ candle 1 true
          ∷ candle 2 true
          ∷ candle 2 false
          ∷ candle 3 true
          ∷ [])
        empty_store)
    ≡ candle 2 true ∷ candle 3 true ∷ []
unfolding get_candles add_candles add_candle add_to latest replace_latest Dict.lookup Dict.insert
kept = refl

-- A limit of zero returns the whole buffer.
no_limit :
    length (get_candles "A" (some 0) (add_candles (candle 1 true ∷ candle 2 true ∷ []) empty_store))
    ≡ 2
unfolding get_candles add_candles add_candle add_to latest replace_latest Dict.lookup Dict.insert
no_limit = refl

add_candles-IsValid_example : IsKept 2 (
    buffer_of "A" (
      add_candles
        (candle 1 true ∷ candle 5 false ∷ candle 3 true ∷ candle 9 true ∷ [])
        empty_store))
unfolding Dict.lookup is_ascending add_candles add_candle
add_candles-IsValid_example =
    add_candles-IsValid (candle 1 true ∷ candle 5 false ∷ candle 3 true ∷ candle 9 true ∷ [])
      empty_store (λ symbol. (refl, omega arith)) "A"

get_candles-stream_example :
    get_candles "A" none
      (add_candles (candle 1 true ∷ candle 2 true ∷ candle 3 true ∷ []) empty_store)
    ≡ last_n 2 (candle 1 true ∷ candle 2 true ∷ candle 3 true ∷ [])
unfolding Dict.lookup is_stream
get_candles-stream_example =
    get_candles-stream 1 "A" (candle 1 true ∷ candle 2 true ∷ candle 3 true ∷ []) empty_store refl
      refl refl
