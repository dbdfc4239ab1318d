-- ===== src/Data/Store/Stream.antt =====
-- A feed that sends new candles of one symbol in order.
use async_trading_engine.Base.{
  ℕ, zero, suc, ◌+◌, ◌-◌, ◌≤◌, ◌≡◌, refl, sym, ap, ◌∙◌, Bool, true, ◌&&◌, Option, none, some, List,
  [], ◌∷◌, ◌++◌, String, arith, inl, inr, length, drop, last_n, length-append, length-drop,
  Option-cases,
}
use mathlib.Core.List.{append-nil, append_assoc}
use async_trading_engine.Base.Dict
use async_trading_engine.Base.Dict.{same_key, same_key_iff}
use async_trading_engine.Data.Candles.{Candle}
use async_trading_engine.Data.Store.{
  DataStore, latest, add_to, buffer_of, add_candle, get_candles, add_candles,
}
use async_trading_engine.Data.Store.Ascending.{is_newer}

module _ {A : Type 0} where
  drop-nil : (n : ℕ) → drop {A = A} n [] ≡ []
  drop-nil zero = refl
  drop-nil (suc n) = refl

  drop-append : (n : ℕ) (xs ys : List A) → n ≤ length xs → drop n (xs ++ ys) ≡ drop n xs ++ ys
  drop-append zero xs ys h = refl
  drop-append (suc n) [] ys h = ground (arith, h)
  drop-append (suc n) (x ∷ xs) ys h = drop-append n xs ys (omega (arith, h))

  drop-drop : (n m : ℕ) (xs : List A) → drop n (drop m xs) ≡ drop (m + n) xs
  drop-drop n zero xs = ap (λ k. drop k xs) (omega arith)
  drop-drop n (suc m) [] = drop-nil n ∙ sym (drop-nil (suc m + n))
  drop-drop n (suc m) (x ∷ xs) =
      let same : suc (m + n) ≡ suc m + n = omega arith in
      drop-drop n m xs ∙ ap (λ k. drop k (x ∷ xs)) same

  -- Trimming the front early makes no difference.
  last_n-append :
      (n : ℕ) (xs : List A) (x : A) → last_n n (last_n n xs ++ x ∷ []) ≡ last_n n (xs ++ x ∷ [])
  last_n-append n xs x =
      let k = length xs - n in
      let y = xs ++ x ∷ [] in
      ap (last_n n) (sym (drop-append k xs (x ∷ []) (omega arith)))
      ∙ drop-drop (length (drop k y) - n) k y
      ∙ ap (λ m. drop m y) (omega (arith, length-drop k y, length-append xs (x ∷ [])))

module _ {F : Type 0} where
  latest-append : (xs : List (Candle F)) (c : Candle F) → latest (xs ++ c ∷ []) ≡ some c
  unfolding latest
  latest-append [] c = refl
  latest-append (x ∷ []) c = refl
  latest-append (x ∷ y ∷ rest) c = latest-append (y ∷ rest) c

  latest-last_n :
      (n : ℕ) (xs : List (Candle F)) (c : Candle F)
      → latest (last_n (suc n) (xs ++ c ∷ [])) ≡ some c
  latest-last_n n xs c =
      let k = length (xs ++ c ∷ []) - suc n in
      ap latest (drop-append k xs (c ∷ []) (omega (arith, length-append xs (c ∷ []))))
      ∙ latest-append (drop k xs) c

  -- The candles are of the symbol, and each is newer than the one before.
  unfoldable pub is_stream : String → Option (Candle F) → List (Candle F) → Bool
  is_stream symbol last [] = true
  is_stream symbol last (c ∷ rest) =
      same_key c.symbol symbol && is_newer c last && is_stream symbol (some c) rest

  add_to-newer :
      (size : ℕ) (c : Candle F) (xs : List (Candle F))
      → is_newer c (latest xs) ≡ true
      → add_to size c xs ≡ last_n size (xs ++ c ∷ [])
  unfolding add_to
  add_to-newer size c xs h = elim (Option-cases (latest xs)) [
    | inl n ↦ ground (arith, n)
    | inr (last, n) ↦ ground (arith, h, n)
  ]

  buffer_of-add_candle :
      (n : ℕ) (symbol : String) (c : Candle F) (seen : List (Candle F)) (store : DataStore F)
      → store.buffer_size ≡ suc n
      → buffer_of symbol store ≡ last_n (suc n) seen
      → is_newer c (latest (buffer_of symbol store)) ≡ true
      → same_key c.symbol symbol ≡ true
      → buffer_of symbol (add_candle c store) ≡ last_n (suc n) (seen ++ c ∷ [])
  unfolding add_candle
  buffer_of-add_candle n symbol c seen store size b l h =
      let old = buffer_of symbol store in
      let added : buffer_of symbol (add_candle c store) ≡ add_to store.buffer_size c old = ground (
        arith,
        h,
        same_key_iff c.symbol symbol,
        Dict.lookup-insert c.symbol symbol (add_to store.buffer_size c (buffer_of c.symbol store))
            store.candles,
      ) in
      added
      ∙ add_to-newer store.buffer_size c old l
      ∙ ap (λ k. last_n k (old ++ c ∷ [])) size
      ∙ ap (λ xs. last_n (suc n) (xs ++ c ∷ [])) b
      ∙ last_n-append (suc n) seen c

  buffer_of-add_candles :
      (n : ℕ) (symbol : String) (cs seen : List (Candle F)) (last : Option (Candle F))
      (store : DataStore F)
      → store.buffer_size ≡ suc n
      → buffer_of symbol store ≡ last_n (suc n) seen
      → latest (buffer_of symbol store) ≡ last
      → is_stream symbol last cs ≡ true
      → buffer_of symbol (add_candles cs store) ≡ last_n (suc n) (seen ++ cs)
  unfolding add_candles is_stream add_candle
  buffer_of-add_candles n symbol [] seen last store size b l h =
      b ∙ ap (last_n (suc n)) (sym (append-nil seen))
  buffer_of-add_candles n symbol (c ∷ rest) seen last store size b l h =
      let step =
        buffer_of-add_candle n symbol c seen store size b (ap (is_newer c) l ∙ ground (arith, h))
          (ground (arith, h)) in
      buffer_of-add_candles n symbol rest (seen ++ c ∷ []) (some c) (add_candle c store) size step
        (ap latest step ∙ latest-last_n n seen c) (ground (arith, h))
      ∙ ap (last_n (suc n)) (append_assoc seen (c ∷ []) rest)

  -- A store with a positive size and no candle of the symbol, to which candles of the symbol are
  -- added, each newer than the one before, returns the last `buffer_size` of them.
  pub get_candles-stream :
      (n : ℕ) (symbol : String) (cs : List (Candle F)) (store : DataStore F)
      → store.buffer_size ≡ suc n
      → Dict.lookup symbol store.candles ≡ none
      → is_stream symbol none cs ≡ true
      → get_candles symbol none (add_candles cs store) ≡ last_n (suc n) cs
  unfolding get_candles latest
  get_candles-stream n symbol cs store size fresh h =
      let empty : buffer_of symbol store ≡ [] = ground (arith, fresh) in
      buffer_of-add_candles n symbol cs [] none store size (empty ∙ sym (drop-nil (0 - suc n)))
        (ap latest empty) h
