-- ===== src/Strategy/Correlation/Tests.antt =====
-- Runs of the selection on fixed-point numbers.
use async_trading_engine.Base.{◌≤◌, ◌≡◌, refl, true, List, [], ◌∷◌, String, length}
use async_trading_engine.Base.Dict
use async_trading_engine.Base.Int.{pos}
use async_trading_engine.Base.Fixed.{Fixed, fixed_float}
use async_trading_engine.Strategy.Correlation.{
  CorrelationTracker, correlation, exceeds, find_blocker, place, select_from, select_uncorrelated,
}
use async_trading_engine.Strategy.Correlation.Selection.{
  ArePairwiseClear, select_uncorrelated-ArePairwiseClear,
}

abbrev tracker : CorrelationTracker Fixed
tracker = record {
  config = record { enabled = true; max_correlation = pos 6500; long_only = true };
  matrix =
      ("A", ("B", pos 9000) ∷ ("C", pos 1000) ∷ [])
      ∷ ("B", ("A", pos 9000) ∷ ("C", pos 2000) ∷ [])
      ∷ ("C", ("A", pos 1000) ∷ ("B", pos 2000) ∷ [])
      ∷ [];
}

abbrev candidates : List String
candidates = "A" ∷ "B" ∷ "C" ∷ []

-- B is bumped by A.
bumped_symbol :
    select_uncorrelated tracker candidates 2
    ≡ record { selected = "A" ∷ "C" ∷ []; bumped = ("B", "A", pos 9000) ∷ [] }
unfolding select_uncorrelated select_from place find_blocker exceeds correlation Dict.lookup
bumped_symbol = refl

-- For `k` of zero the first candidate is selected all the same.
none_asked : (select_uncorrelated tracker candidates 0).selected ≡ "A" ∷ []
unfolding select_uncorrelated select_from place find_blocker exceeds correlation Dict.lookup
none_asked = refl

select_uncorrelated-ArePairwiseClear_example :
    let s = select_uncorrelated tracker candidates 2 in
    ArePairwiseClear tracker s.selected × (length s.selected ≤ 2)
select_uncorrelated-ArePairwiseClear_example =
    select_uncorrelated-ArePairwiseClear tracker candidates 1 refl (refl, (refl, (refl, tt)))
