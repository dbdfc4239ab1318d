-- ===== src/Data/Store/Ascending.antt =====
-- The order and the size of the buffers.
use async_trading_engine.Base.{
  ℕ, zero, suc, ◌-◌, ◌≤◌, ◌≡◌, refl, Bool, true, ◌&&◌, Option, none, some, List, [], ◌∷◌, ◌++◌,
  if◌then◌else◌, String, arith, inl, inr, ltb, length, drop, last_n, length-last_n, Bool-cases,
  Option-cases,
}
use async_trading_engine.Base.Dict
use async_trading_engine.Base.Dict.{same_key, same_key_iff}
use async_trading_engine.Data.Candles.{Candle}
use async_trading_engine.Data.Store.{
  DataStore, latest, replace_latest, add_to, buffer_of, add_candle, replace_candles, add_candles,
}

module _ {F : Type 0} where
  -- Every candle is older than the next.
  unfoldable pub is_ascending : List (Candle F) → Bool
  is_ascending [] = true
  is_ascending (c ∷ []) = true
  is_ascending (c ∷ d ∷ rest) = ltb c.timestamp d.timestamp && is_ascending (d ∷ rest)

  pub is_ascending-drop :
      (n : ℕ) (xs : List (Candle F)) → is_ascending xs ≡ true → is_ascending (drop n xs) ≡ true
  unfolding is_ascending
  is_ascending-drop zero xs h = h
  is_ascending-drop (suc n) [] h = h
  is_ascending-drop (suc n) (c ∷ []) h = is_ascending-drop n [] refl
  is_ascending-drop (suc n) (c ∷ d ∷ rest) h = is_ascending-drop n (d ∷ rest) (ground (arith, h))

  -- The candle is newer than the latest, if there is one.
  abbrev pub is_newer : Candle F → Option (Candle F) → Bool
  is_newer c none = true
  is_newer c (some last) = ltb last.timestamp c.timestamp

  pub is_ascending-append :
      (c : Candle F) (xs : List (Candle F))
      → is_ascending xs ≡ true
      → is_newer c (latest xs) ≡ true
      → is_ascending (xs ++ c ∷ []) ≡ true
  unfolding is_ascending latest
  is_ascending-append c [] h l = ground arith
  is_ascending-append c (x ∷ []) h l = ground (arith, l)
  is_ascending-append c (x ∷ y ∷ rest) h l = ground (arith, h, is_ascending-append c (y ∷ rest), l)

  is_ascending-replace_latest :
      (c last : Candle F) (xs : List (Candle F))
      → is_ascending xs ≡ true
      → latest xs ≡ some last
      → last.timestamp ≡ c.timestamp
      → is_ascending (replace_latest c xs) ≡ true
  unfolding is_ascending latest replace_latest
  is_ascending-replace_latest c last [] h l e = ground arith
  is_ascending-replace_latest c last (x ∷ []) h l e = ground arith
  is_ascending-replace_latest c last (x ∷ y ∷ []) h l e = ground (arith, h, l, e)
  is_ascending-replace_latest c last (x ∷ y ∷ z ∷ rest) h l e =
      ground (arith, h, l, e, is_ascending-replace_latest c last (y ∷ z ∷ rest))

  length-replace_latest :
      (c : Candle F) (xs : List (Candle F)) → length (replace_latest c xs) ≡ length xs
  unfolding replace_latest
  length-replace_latest c [] = ground arith
  length-replace_latest c (x ∷ []) = ground arith
  length-replace_latest c (x ∷ y ∷ rest) = ground (arith, length-replace_latest c (y ∷ rest))

  abbrev pub IsKept : ℕ → List (Candle F) → Type 0
  IsKept size xs = (is_ascending xs ≡ true) × (length xs ≤ size)

  add_to-IsKept :
      (size : ℕ) (c : Candle F) (xs : List (Candle F))
      → IsKept size xs
      → IsKept size (add_to size c xs)
  unfolding add_to
  add_to-IsKept size c xs (h, l) =
      let pushed = xs ++ c ∷ [] in
      let kept : is_newer c (latest xs) ≡ true → IsKept size (last_n size pushed) = λ n. (
        is_ascending-drop (length pushed - size) pushed (is_ascending-append c xs h n),
        length-last_n size pushed,
      ) in
      elim (Option-cases (latest xs)) [
        | inl n ↦ ground (arith, n, kept)
        | inr (last, n) ↦ ground (
          arith,
          h,
          l,
          n,
          kept,
          is_ascending-replace_latest c last xs h n,
          length-replace_latest c xs,
        )
      ]

  -- Every buffer is ascending, and not longer than `buffer_size`.
  abbrev pub IsValid : DataStore F → Type 0
  IsValid store = (symbol : String) → IsKept store.buffer_size (buffer_of symbol store)

  buffer_of-add_candle :
      (c : Candle F) (store : DataStore F) (symbol : String)
      → buffer_of symbol (add_candle c store) ≡ (
          if same_key c.symbol symbol
          then add_to store.buffer_size c (buffer_of c.symbol store)
          else buffer_of symbol store)
  unfolding add_candle
  buffer_of-add_candle c store symbol = ground (
    arith,
    Dict.lookup-insert c.symbol symbol (add_to store.buffer_size c (buffer_of c.symbol store))
        store.candles,
  )

  add_candle-IsValid :
      (c : Candle F) (store : DataStore F) → IsValid store → IsValid (add_candle c store)
  unfolding add_candle
  add_candle-IsValid c store valid symbol = elim (Bool-cases (same_key c.symbol symbol)) [
    | inl h ↦ ground (
      arith,
      h,
      buffer_of-add_candle c store symbol,
      add_to-IsKept store.buffer_size c (buffer_of c.symbol store) (valid c.symbol),
    )
    | inr h ↦ ground (arith, h, buffer_of-add_candle c store symbol, valid symbol)
  ]

  -- Whatever candles arrive in whatever order, every buffer of a store stays ascending in the
  -- timestamps, without duplicates, and within its size.
  pub add_candles-IsValid :
      (cs : List (Candle F)) (store : DataStore F) → IsValid store → IsValid (add_candles cs store)
  unfolding add_candles
  add_candles-IsValid [] store valid = valid
  add_candles-IsValid (c ∷ rest) store valid =
      add_candles-IsValid rest (add_candle c store) (add_candle-IsValid c store valid)

  -- A repair keeps that, when the candles that it brings are ascending.
  pub replace_candles-IsValid :
      (symbol : String) (cs : List (Candle F)) (store : DataStore F)
      → is_ascending cs ≡ true
      → IsValid store
      → IsValid (replace_candles symbol cs store)
  unfolding replace_candles
  replace_candles-IsValid symbol cs store h valid other = ground (
    arith,
    valid other,
    Dict.lookup-insert symbol other (last_n store.buffer_size cs) store.candles,
    is_ascending-drop (length cs - store.buffer_size) cs h,
    length-last_n store.buffer_size cs,
  )
