-- ===== src/Data/Store.antt =====
-- src/bot/data/store.py: the buffers of candles, oldest first.
pub mod Ascending
pub mod Stream
mod Tests
use async_trading_engine.Base.{
  ℕ, zero, suc, ◌+◌, true, false, not, ◌&&◌, Option, none, some, List, [], ◌∷◌, ◌++◌, String,
  if◌then◌else◌, eqb, ltb, length, last_n,
}
use async_trading_engine.Base.Dict
use async_trading_engine.Base.Dict.{Dict}
use async_trading_engine.Data.Candles.{Candle}

pub record DataStore (F : Type 0) : Type 0 where
  pub buffer_size : ℕ
  pub candles : Dict (List (Candle F))

module _ {F : Type 0} where
  -- `buf[-1]`
  unfoldable pub latest : List (Candle F) → Option (Candle F)
  latest [] = none
  latest (c ∷ []) = some c
  latest (c ∷ d ∷ rest) = latest (d ∷ rest)

  -- `buf[-1] = candle`
  unfoldable pub replace_latest : Candle F → List (Candle F) → List (Candle F)
  replace_latest candle [] = []
  replace_latest candle (c ∷ []) = candle ∷ []
  replace_latest candle (c ∷ d ∷ rest) = c ∷ replace_latest candle (d ∷ rest)

  -- `add_candle` on the buffer of the symbol, which keeps `buffer_size` candles.
  unfoldable pub add_to : ℕ → Candle F → List (Candle F) → List (Candle F)
  unfolding latest replace_latest
  add_to buffer_size candle buf = elim (latest buf) [
    | none ↦ last_n buffer_size (buf ++ candle ∷ [])
    | some last ↦
        if eqb last.timestamp candle.timestamp
        then if not last.is_confirmed && candle.is_confirmed then replace_latest candle buf else buf
        else if ltb candle.timestamp last.timestamp
        then buf
        else last_n buffer_size (buf ++ candle ∷ [])
  ]

  -- The buffer of a symbol, empty when there is none.
  abbrev pub buffer_of : String → DataStore F → List (Candle F)
  buffer_of symbol store = Dict.get_or symbol [] store.candles

  unfoldable pub add_candle : Candle F → DataStore F → DataStore F
  unfolding add_to
  add_candle candle store = record store {
    candles =
        Dict.insert candle.symbol (add_to store.buffer_size candle (buffer_of candle.symbol store))
          store.candles;
  }

  unfoldable pub replace_candles : String → List (Candle F) → DataStore F → DataStore F
  replace_candles symbol candles store = record store {
    candles = Dict.insert symbol (last_n store.buffer_size candles) store.candles;
  }

  -- `get_candles`: `[-limit:]` is the whole list when the limit is zero.
  unfoldable pub get_candles : String → Option ℕ → DataStore F → List (Candle F)
  get_candles symbol none store = buffer_of symbol store
  get_candles symbol (some zero) store = buffer_of symbol store
  get_candles symbol (some (suc n)) store = last_n (suc n) (buffer_of symbol store)

  unfoldable pub get_latest_candle : String → DataStore F → Option (Candle F)
  unfolding latest
  get_latest_candle symbol store = latest (buffer_of symbol store)

  unfoldable pub get_candle_count : String → DataStore F → ℕ
  get_candle_count symbol store = length (buffer_of symbol store)

  -- The candles of a session, each added in turn.
  unfoldable pub add_candles : List (Candle F) → DataStore F → DataStore F
  unfolding add_candle
  add_candles [] store = store
  add_candles (c ∷ rest) store = add_candles rest (add_candle c store)

  -- `warm_store_from_db`, with what the database returns for a symbol.
  unfoldable pub warm_store_from_db :
      (String → List (Candle F)) → List String → DataStore F → DataStore F × ℕ
  unfolding add_candles
  warm_store_from_db rows [] store = (store, 0)
  warm_store_from_db rows (symbol ∷ rest) store =
      let (warmed, total) = warm_store_from_db rows rest (add_candles (rows symbol) store) in
      (warmed, length (rows symbol) + total)
