-- ===== src/Strategy/Correlation/Selection.antt =====
-- What the selection promises: no two symbols that are too correlated, and no more than `k`.
use async_trading_engine.Base.{
  ℕ, suc, ◌≤◌, ◌≡◌, false, not, ◌||◌, none, some, List, [], ◌∷◌, ◌++◌, String, arith, leb, length,
  length-append, All, Option-cases, Bool-cases, inl, inr, sym,
}
use mathlib.Core.Path.{subst}
use async_trading_engine.Base.Dict.{same_key}
use async_trading_engine.Base.Float.{Float}
use async_trading_engine.Strategy.Correlation.{
  CorrelationTracker, Selected, correlation, exceeds, find_blocker, place, select_from,
  select_uncorrelated,
}

module _ {F : Type 0} ⦃d : Float F⦄ (m : CorrelationTracker F) where
  -- The correlation of the two, if it is known, is within the limit.
  abbrev pub IsClear : String → String → Type 0
  IsClear symbol already = exceeds m.config (correlation m symbol already) ≡ false

  -- Each symbol is clear of all those selected before it.
  abbrev pub ArePairwiseClear : List String → Type 0
  ArePairwiseClear [] = Unit
  ArePairwiseClear (first ∷ rest) =
      All (λ symbol. IsClear symbol first) rest × ArePairwiseClear rest

  IsClear-append :
      (first symbol : String) (xs : List String)
      → All (λ x. IsClear x first) xs
      → IsClear symbol first
      → All (λ x. IsClear x first) (xs ++ symbol ∷ [])
  IsClear-append first symbol [] h k = (k, tt)
  IsClear-append first symbol (x ∷ xs) h k = (h.0, IsClear-append first symbol xs h.1 k)

  ArePairwiseClear-append :
      (xs : List String) (symbol : String)
      → ArePairwiseClear xs
      → All (λ already. IsClear symbol already) xs
      → ArePairwiseClear (xs ++ symbol ∷ [])
  ArePairwiseClear-append [] symbol h k = (tt, tt)
  ArePairwiseClear-append (x ∷ xs) symbol h k =
      (IsClear-append x symbol xs h.0 k.0, ArePairwiseClear-append xs symbol h.1 k.1)

  find_blocker-none :
      (symbol : String) (xs : List String)
      → find_blocker m symbol xs ≡ none
      → All (λ already. IsClear symbol already) xs
  unfolding find_blocker
  find_blocker-none symbol [] h = tt
  find_blocker-none symbol (x ∷ xs) h =
      elim (Bool-cases (exceeds m.config (correlation m symbol x))) [
        | inl over ↦ ground (arith, h, over)
        | inr under ↦ (under, find_blocker-none symbol xs (ground (arith, h, under)))
      ]

  -- No selected symbol is the empty text.
  abbrev pub AreNamed : List String → Type 0
  AreNamed xs = All (λ x. same_key x "" ≡ false) xs

  find_blocker_named :
      (symbol : String) (xs : List String) (blocker : String)
      → AreNamed xs
      → find_blocker m symbol xs ≡ some blocker
      → same_key blocker "" ≡ false
  unfolding find_blocker
  find_blocker_named symbol [] blocker n h = ground (arith, h)
  find_blocker_named symbol (x ∷ xs) blocker n h =
      ground (arith, h, n.0, find_blocker_named symbol xs blocker n.1)

  AreNamed-append :
      (xs : List String) (s : String)
      → AreNamed xs
      → same_key s "" ≡ false
      → AreNamed (xs ++ s ∷ [])
  AreNamed-append [] s h k = (k, tt)
  AreNamed-append (x ∷ xs) s h k = (h.0, AreNamed-append xs s h.1 k)

  abbrev Good : ℕ → Selected F → Type 0
  Good k s = AreNamed s.selected × ArePairwiseClear s.selected × (length s.selected ≤ k)

  place-Good :
      (k : ℕ) (s : Selected F) (symbol : String)
      → same_key symbol "" ≡ false
      → Good k s
      → Good (suc k) (place m s symbol)
  unfolding place
  place-Good k s symbol n g = elim (Option-cases (find_blocker m symbol s.selected)) [
    | inl e ↦
        let placed : place m s symbol ≡ record s { selected = s.selected ++ symbol ∷ [] } =
          ground (arith, e) in
        subst (Good (suc k)) (sym placed) (
          AreNamed-append s.selected symbol g.0 n,
          ArePairwiseClear-append s.selected symbol g.1 (find_blocker-none symbol s.selected e),
          omega (arith, length-append s.selected (symbol ∷ []), g.2),
        )
    | inr (blocker, e) ↦ ground (arith, e, g, find_blocker_named symbol s.selected blocker g.0 e)
  ]

  select_from-Good :
      (k : ℕ) (s : Selected F) (candidates : List String)
      → AreNamed candidates
      → Good k s
      → Good (suc k) (select_from m (suc k) s candidates)
  unfolding select_from
  select_from-Good k s [] n g = (g.0, g.1, omega (arith, g.2))
  select_from-Good k s (symbol ∷ rest) n g =
      let placed = place m s symbol in
      let good = place-Good k s symbol n.0 g in
      elim (Bool-cases (leb (suc k) (length placed.selected))) [
        | inl full ↦ rw full good
        | inr room ↦
            rw room (select_from-Good k placed rest n.1 (good.0, good.1, ground (arith, room)))
      ]

  -- With the filter on and a matrix that is not empty, no symbol that is selected has a known
  -- correlation over the limit with one selected before it, and at most `k` are selected; for `k`
  -- above zero and candidates that are not the empty text.
  pub select_uncorrelated-ArePairwiseClear :
      (candidates : List String) (k : ℕ)
      → (not m.config.enabled || leb (length m.matrix) 0) ≡ false
      → AreNamed candidates
      → let s = select_uncorrelated m candidates (suc k) in
        ArePairwiseClear s.selected × (length s.selected ≤ suc k)
  unfolding select_uncorrelated
  select_uncorrelated-ArePairwiseClear candidates k h n =
      let good =
        select_from-Good k (record { selected = []; bumped = [] }) candidates n
          (tt, tt, omega arith) in
      rw h (good.1, good.2)
