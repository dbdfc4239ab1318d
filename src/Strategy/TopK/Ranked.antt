-- ===== src/Strategy/TopK/Ranked.antt =====
-- What the selection picks from.
use async_trading_engine.Base.{
  ℕ, zero, suc, Bool, true, false, ◌&&◌, ◌||◌, Option, none, some, List, [], ◌∷◌, ◌++◌, map, String,
  take, ◌≡◌, refl, arith, inl, inr, Option-cases,
}
use async_trading_engine.Base.Float.{Float}
use async_trading_engine.Base.Dict.{same_key}
use async_trading_engine.Data.Symbols.{member}
use async_trading_engine.Strategy.Correlation.{
  CorrelationTracker, Selected, find_blocker, place, select_from, select_uncorrelated,
}
use async_trading_engine.Strategy.TopK.{AssetSignal, TopkStrategy}
use async_trading_engine.Strategy.TopK.Selection.{
  score, eligible, insert_ranked, rank, select_top_k,
}

member-take :
    (x : String) (n : ℕ) (xs : List String) → member x (take n xs) ≡ true → member x xs ≡ true
member-take x zero xs h = ground (arith, h)
member-take x (suc n) [] h = ground (arith, h)
member-take x (suc n) (y ∷ xs) h = ground (arith, h, member-take x n xs)

member-append :
    (x y : String) (xs : List String) → member x (xs ++ y ∷ []) ≡ (member x xs || same_key y x)
member-append x y [] = ground arith
member-append x y (z ∷ xs) = ground (arith, member-append x y xs)

module _ {F : Type 0} ⦃d : Float F⦄ where
  member-place :
      (m : CorrelationTracker F) (s : Selected F) (x symbol : String)
      → member x (place m s symbol).selected ≡ true
      → (member x s.selected || same_key symbol x) ≡ true
  unfolding place
  member-place m s x symbol h = elim (Option-cases (find_blocker m symbol s.selected)) [
    | inl k ↦ ground (arith, h, k, member-append x symbol s.selected)
    | inr (blocker, k) ↦ ground (arith, h, k, member-append x symbol s.selected)
  ]

  member-select_from :
      (m : CorrelationTracker F) (k : ℕ) (s : Selected F) (x : String) (rest : List String)
      → member x (select_from m k s rest).selected ≡ true
      → (member x s.selected || member x rest) ≡ true
  unfolding select_from
  member-select_from m k s x [] h = ground (arith, h)
  member-select_from m k s x (symbol ∷ rest) h =
      let placed = place m s symbol in
      ground (arith, h, member-place m s x symbol, member-select_from m k placed x rest)

  member-select_uncorrelated :
      (m : CorrelationTracker F) (x : String) (xs : List String) (k : ℕ)
      → member x (select_uncorrelated m xs k).selected ≡ true
      → member x xs ≡ true
  unfolding select_uncorrelated
  member-select_uncorrelated m x xs k h = ground (
    arith,
    h,
    member-take x k xs,
    member-select_from m k (record { selected = []; bumped = [] }) x xs,
  )

  abbrev symbols_of : List (AssetSignal F) → List String
  symbols_of sigs = map (λ (sig : AssetSignal F). sig.symbol) sigs

  member-insert_ranked :
      (key : AssetSignal F → F) (sig : AssetSignal F) (x : String) (xs : List (AssetSignal F))
      → member x (symbols_of (insert_ranked key sig xs))
        ≡ (same_key sig.symbol x || member x (symbols_of xs))
  unfolding insert_ranked
  member-insert_ranked key sig x [] = ground arith
  member-insert_ranked key sig x (y ∷ xs) = ground (arith, member-insert_ranked key sig x xs)

  member-rank :
      (key : AssetSignal F → F) (x : String) (xs : List (AssetSignal F))
      → member x (symbols_of (rank key xs)) ≡ member x (symbols_of xs)
  unfolding rank
  member-rank key x [] = refl
  member-rank key x (sig ∷ xs) =
      ground (arith, member-insert_ranked key sig x (rank key xs), member-rank key x xs)

  -- A signal of the symbol is tradeable, and its market counts as open.
  unfoldable pub can_enter : Option (String → Bool) → String → List (AssetSignal F) → Bool
  can_enter is_open x [] = false
  can_enter is_open x (sig ∷ rest) =
      same_key sig.symbol x && sig.tradeable && elim is_open [ none ↦ true | some f ↦ f sig.symbol ]
      || can_enter is_open x rest

  member-eligible :
      (is_open : Option (String → Bool)) (x : String) (sigs : List (AssetSignal F))
      → member x (symbols_of (eligible is_open sigs)) ≡ can_enter is_open x sigs
  unfolding eligible can_enter
  member-eligible is_open x [] = refl
  member-eligible none x (sig ∷ rest) = ground (arith, member-eligible none x rest)
  member-eligible (some f) x (sig ∷ rest) = ground (arith, member-eligible (some f) x rest)

  -- Every symbol that is selected has a signal that is tradeable and whose market counts as open.
  pub select_top_k-eligible :
      (s : TopkStrategy F) (sigs : List (AssetSignal F)) (k : Option ℕ)
      (is_open : Option (String → Bool)) (x : String)
      → member x (select_top_k s sigs k is_open).1 ≡ true
      → can_enter is_open x sigs ≡ true
  unfolding select_top_k
  select_top_k-eligible s sigs k is_open x h =
      let ranked = symbols_of (rank (score s.path_signals) (eligible is_open sigs)) in
      ground (
        arith,
        member-select_uncorrelated s.correlation_tracker x ranked
            (elim k as (λ x. ℕ) [ none ↦ s.config.k | some n ↦ n ]) h,
        member-rank (score s.path_signals) x (eligible is_open sigs),
        member-eligible is_open x sigs,
      )
