-- ===== src/Strategy/TopK/Selection.antt =====
-- `select_top_k` and the alert on bumped symbols.
use async_trading_engine.Base.{
  ℕ, Bool, true, false, not, ◌&&◌, Option, none, some, List, [], ◌∷◌, map, String, if◌then◌else◌,
  ltb, length, take,
}
use async_trading_engine.Base.Float.{Float}
use async_trading_engine.Base.Dict
use async_trading_engine.Base.Dict.{Dict, same_key}
use async_trading_engine.Data.Symbols.{member}
use async_trading_engine.Strategy.Correlation.{select_uncorrelated}
use async_trading_engine.Strategy.TopK.{AssetSignal, PathSignal, TopkStrategy, Bump}

-- `{(s, b) for s, b, _ in bumped}`, as a list
unfoldable pub bump_key : {F : Type 0} → List (Bump F) → List (String × String)
bump_key [] = []
bump_key ((symbol, blocker, corr) ∷ rest) = (symbol, blocker) ∷ bump_key rest

abbrev has_pair : String × String → List (String × String) → Bool
has_pair p [] = false
has_pair p (q ∷ rest) = if same_key q.0 p.0 && same_key q.1 p.1 then true else has_pair p rest

abbrev is_subset : List (String × String) → List (String × String) → Bool
is_subset [] ys = true
is_subset (x ∷ xs) ys = has_pair x ys && is_subset xs ys

-- The equality of two sets.
unfoldable pub same_set : List (String × String) → List (String × String) → Bool
same_set xs ys = is_subset xs ys && is_subset ys xs

-- `material_bumps_if_changed`
unfoldable pub material_bumps_if_changed :
    {F : Type 0} → TopkStrategy F → TopkStrategy F × Option (List (Bump F))
unfolding bump_key same_set
material_bumps_if_changed s =
    let key = bump_key s.last_material_bumped in
    (
      record s { last_alerted_bump_key = key },
      (if ltb 0 (length s.last_material_bumped) && not (same_set key s.last_alerted_bump_key)
          then some s.last_material_bumped
          else none),
    )

-- The bumped symbols that are among the given ones.
unfoldable pub material : {F : Type 0} → List String → List (Bump F) → List (Bump F)
material top [] = []
material top (b ∷ rest) = if member b.0 top then b ∷ material top rest else material top rest

module _ {F : Type 0} ⦃d : Float F⦄ where
  open d use {lt}

  -- `_score`: the ranking score of the path signal, or the mean return.
  unfoldable pub score : Dict (PathSignal F) → AssetSignal F → F
  score paths sig = elim (Dict.lookup sig.symbol paths) [
    | none ↦ sig.mean_return
    | some path ↦ path.ranking_score
  ]

  -- The signals that may be selected; without a predicate every market counts as open.
  unfoldable pub eligible : Option (String → Bool) → List (AssetSignal F) → List (AssetSignal F)
  eligible is_open [] = []
  eligible is_open (sig ∷ rest) =
      if sig.tradeable && elim is_open [ none ↦ true | some f ↦ f sig.symbol ]
      then sig ∷ eligible is_open rest
      else eligible is_open rest

  -- Python's stable sort by falling score: a signal goes before those that do not score higher.
  unfoldable pub insert_ranked :
      (AssetSignal F → F) → AssetSignal F → List (AssetSignal F) → List (AssetSignal F)
  insert_ranked key sig [] = sig ∷ []
  insert_ranked key sig (x ∷ rest) =
      if lt (key sig) (key x) then x ∷ insert_ranked key sig rest else sig ∷ x ∷ rest

  unfoldable pub rank : (AssetSignal F → F) → List (AssetSignal F) → List (AssetSignal F)
  unfolding insert_ranked
  rank key [] = []
  rank key (sig ∷ rest) = insert_ranked key sig (rank key rest)

  -- `select_top_k`
  unfoldable pub select_top_k :
      TopkStrategy F
      → List (AssetSignal F)
      → Option ℕ
      → Option (String → Bool)
      → TopkStrategy F × List String
  unfolding score eligible rank material
  select_top_k s signals k is_open =
      let limit = elim k as (λ x. ℕ) [ none ↦ s.config.k | some n ↦ n ] in
      let ranked =
        map (λ (sig : AssetSignal F). sig.symbol)
          (rank (score s.path_signals) (eligible is_open signals)) in
      let chosen = select_uncorrelated s.correlation_tracker ranked limit in
      (
        record s {
          last_bumped = chosen.bumped;
          last_material_bumped = material (take limit ranked) chosen.bumped;
        },
        chosen.selected,
      )
