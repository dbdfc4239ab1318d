-- ===== src/Risk/SpreadMonitor.antt =====
-- src/bot/risk/spread_monitor.py. `fmean` and `stdev` of Python's `statistics` are parameters.
use async_trading_engine.Base.{
  ℕ, Bool, false, Option, none, some, List, [], ◌∷◌, ◌++◌, String, if◌then◌else◌, ltb, length,
  last_n,
}
use async_trading_engine.Base.Dict
use async_trading_engine.Base.Dict.{Dict}
use async_trading_engine.Base.Float.{Float}

pub record SpreadMonitor (F : Type 0) : Type 0 where
  pub window : ℕ
  pub min_prime : ℕ
  pub n_sigma : F
  pub samples : Dict (List F)
  pub latest : Dict F

-- `statistics.fmean` and `statistics.stdev`
pub record Statistics (F : Type 0) : Type 0 where
  pub fmean : List F → F
  pub stdev : List F → F

module _ {F : Type 0} ⦃d : Float F⦄ where
  open d use {zero, le, lt, add, mul, decimal}

  unfoldable pub new_monitor : SpreadMonitor F
  new_monitor = record {
    window = 43_200;
    min_prime = 200;
    n_sigma = decimal 20 1;
    samples = [];
    latest = [];
  }

  unfoldable pub record_spread : String → F → SpreadMonitor F → SpreadMonitor F
  record_spread epic spread_pts m = if le spread_pts zero then m else record m {
    samples =
        Dict.insert epic (last_n m.window (Dict.get_or epic [] m.samples ++ spread_pts ∷ []))
          m.samples;
    latest = Dict.insert epic spread_pts m.latest;
  }

  unfoldable pub latest_spread : String → SpreadMonitor F → Option F
  latest_spread epic m = Dict.lookup epic m.latest

  unfoldable pub sample_count : String → SpreadMonitor F → ℕ
  sample_count epic m = length (Dict.get_or epic [] m.samples)

  abbrev or_latest : Option F → Option F → Option F
  or_latest none latest = latest
  or_latest (some current) latest = some current

  module _ (s : Statistics F) where
    -- The mean and the deviation of enough samples.
    unfoldable pub stats : String → SpreadMonitor F → Option (F × F)
    stats epic m = elim (Dict.lookup epic m.samples) [
      | none ↦ none
      | some samples ↦
          if ltb (length samples) m.min_prime
          then none
          else some (s.fmean samples, (if ltb 1 (length samples) then s.stdev samples else zero))
    ]

    -- `is_anomalous`; a spread that is not given is the latest.
    unfoldable pub is_anomalous : String → Option F → SpreadMonitor F → Bool
    unfolding stats latest_spread
    is_anomalous epic current_spread m = elim (or_latest current_spread (latest_spread epic m)) [
      | none ↦ false
      | some current ↦ if le current zero then false else elim (stats epic m) [
        | none ↦ false
        | some (mean, stdev) ↦ lt (add mean (mul m.n_sigma stdev)) current
      ]
    ]

  -- `reset`: one EPIC, or all of them.
  unfoldable pub reset : Option String → SpreadMonitor F → SpreadMonitor F
  reset none m = record m { samples = []; latest = [] }
  reset (some epic) m = record m {
    samples = Dict.erase epic m.samples;
    latest = Dict.erase epic m.latest;
  }
