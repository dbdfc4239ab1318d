-- ===== src/Strategy/Correlation.antt =====
-- src/bot/strategy/correlation.py: the greedy selection of symbols that are not correlated. The
-- matrix is what `update` or `restore` left; its numbers come from pandas.
pub mod Selection
mod Tests
use async_trading_engine.Base.{
  ℕ, Bool, true, false, not, ◌||◌, Option, none, some, List, [], ◌∷◌, ◌++◌, String, if◌then◌else◌,
  leb, length, take,
}
use async_trading_engine.Base.Dict
use async_trading_engine.Base.Dict.{Dict, same_key}
use async_trading_engine.Base.Float.{Float, abs}

-- The fields of `CorrelationConfig` that the selection reads.
pub record CorrelationConfig (F : Type 0) : Type 0 where
  pub enabled : Bool
  pub max_correlation : F
  pub long_only : Bool

pub record CorrelationTracker (F : Type 0) : Type 0 where
  pub config : CorrelationConfig F
  pub matrix : Dict (Dict F)

-- `selected` and `bumped`: the symbol, what blocks it, and their correlation.
pub record Selected (F : Type 0) : Type 0 where
  pub selected : List String
  pub bumped : List (String × String × F)

-- `correlation`
unfoldable pub correlation : {F : Type 0} → CorrelationTracker F → String → String → Option F
correlation m sym_a sym_b = Dict.lookup sym_b (Dict.get_or sym_a [] m.matrix)

module _ {F : Type 0} ⦃d : Float F⦄ where
  open d use {lt}

  -- Whether a correlation, if there is one, is above the limit.
  unfoldable pub exceeds : CorrelationConfig F → Option F → Bool
  exceeds c none = false
  exceeds c (some corr) = lt c.max_correlation (if c.long_only then corr else abs corr)

  -- The inner loop: the first selected symbol whose correlation exceeds the limit.
  unfoldable pub find_blocker : CorrelationTracker F → String → List String → Option String
  find_blocker m symbol [] = none
  find_blocker m symbol (already ∷ rest) =
      let later = find_blocker m symbol rest in
      if exceeds m.config (correlation m symbol already) then some already else later

  -- The body of the outer loop, before the test of `k`.
  unfoldable pub place : CorrelationTracker F → Selected F → String → Selected F
  place m s symbol = elim (find_blocker m symbol s.selected) [
    | none ↦ record s { selected = s.selected ++ symbol ∷ [] }
    | some blocker ↦
        if same_key blocker ""
        then record s { selected = s.selected ++ symbol ∷ [] }
        else elim (correlation m symbol blocker) [
          | none ↦ s
          | some corr ↦ record s { bumped = s.bumped ++ (symbol, blocker, corr) ∷ [] }
        ]
  ]

  unfoldable pub select_from : CorrelationTracker F → ℕ → Selected F → List String → Selected F
  select_from m k s [] = s
  select_from m k s (symbol ∷ rest) =
      let placed = place m s symbol in
      let later = select_from m k placed rest in
      if leb k (length placed.selected) then placed else later

  -- `select_uncorrelated`
  unfoldable pub select_uncorrelated : CorrelationTracker F → List String → ℕ → Selected F
  select_uncorrelated m ranked_candidates k =
      if not m.config.enabled || leb (length m.matrix) 0
      then record { selected = take k ranked_candidates; bumped = [] }
      else select_from m k (record { selected = []; bumped = [] }) ranked_candidates
