-- ===== src/Strategy/TopK.antt =====
-- src/bot/strategy/topk_strategy.py: signals, their filters and the selection. The model that
-- predicts, numpy and pandas are third-party code.
pub mod Selection
pub mod Ranked
pub mod Tests
use async_trading_engine.Base.{
  ℕ, zero, suc, ◌+◌, ◌*◌, Bool, true, false, not, ◌&&◌, ◌||◌, Option, none, some, List, [], ◌∷◌,
  map, String, if◌then◌else◌, leb, ltb,
}
use async_trading_engine.Base.Float.{Float, max}
use async_trading_engine.Base.Int.{ℤ, pos, negsuc, sub_ℕ}
use async_trading_engine.Base.Dict
use async_trading_engine.Base.Dict.{Dict}
use async_trading_engine.Data.Symbols.{forex, metal, equity, universe, find_symbol}
use async_trading_engine.Strategy.Correlation.{CorrelationTracker}
use async_trading_engine.Strategy.TakeProfit.State.{SignalAttributes}
use async_trading_engine.TradingHours.Schedule.{class_of}

pub data Direction : Type 0 where
  long short : Direction

-- `AssetSignal`; `samples` and `var_closes_at_horizons` hold what the draws predicted.
pub record AssetSignal (F : Type 0) : Type 0 where
  pub symbol : String
  pub mean_return : F
  pub std_return : F
  pub direction_confidence : F
  pub uncertainty : F
  pub stop_pct : F
  pub tradeable : Bool
  pub predicted_close : F
  pub direction : Direction
  pub samples : List F
  pub var_closes_at_horizons : List (List F)

-- What the take-profit manager reads of a signal.
unfoldable pub attributes_of : {F : Type 0} → AssetSignal F → SignalAttributes F
attributes_of s = record {
  mean_return = some s.mean_return;
  stop_pct = some s.stop_pct;
  direction_confidence = some s.direction_confidence;
  uncertainty = some s.uncertainty;
}

-- The fields of `TopKConfig` that the filters and the selection read.
pub record TopkConfig (F : Type 0) : Type 0 where
  pub k : ℕ
  pub pred_len : ℕ
  pub variance_pass_enabled : Bool
  pub variance_sample_count : ℕ
  pub min_confidence : F
  pub max_uncertainty : F
  pub min_predicted_return : F
  pub ranking_horizon_bars : ℕ
  pub ranking_horizon_by_class : Dict ℕ

-- What a `KronosPathSignal` gives to the ranking and the stop.
pub record PathSignal (F : Type 0) : Type 0 where
  pub ranking_score : F
  pub predicted_mae_pct : F
  pub stop_pct : F

-- A bumped symbol, what blocks it, and their correlation.
abbrev pub Bump : Type 0 → Type 0
Bump F = String × String × F

-- The state of `TopKStrategy` that the selection uses.
pub record TopkStrategy (F : Type 0) : Type 0 where
  pub config : TopkConfig F
  pub correlation_tracker : CorrelationTracker F
  pub path_signals : Dict (PathSignal F)
  pub last_bumped : List (Bump F)
  pub last_material_bumped : List (Bump F)
  pub last_alerted_bump_key : List (String × String)

-- `np.std` of returns, and `np.mean` of truth values
pub record Numpy (F : Type 0) : Type 0 where
  pub std : List F → F
  pub share : List Bool → F

abbrev is_long : Direction → Bool
is_long long = true
is_long short = false

-- `ranking_class_for`
unfoldable pub ranking_class_for : String → Option String
ranking_class_for symbol = elim (class_of symbol) [
  | none ↦ none
  | some forex ↦ some "forex"
  | some metal ↦ some "metal"
  | some equity ↦ some "us_equity"
]

-- `_slice_index`; -1 is the last bar.
unfoldable pub slice_index : ℕ → ℕ → ℤ
slice_index zero pred_len = negsuc 0
slice_index (suc n) pred_len = if leb (suc n) pred_len then sub_ℕ (suc n) 1 else sub_ℕ pred_len 1

-- `_effective_horizon_bars`
unfoldable pub effective_horizon_bars : {F : Type 0} → TopkConfig F → String → ℕ
effective_horizon_bars c symbol = elim (ranking_class_for symbol) [
  | none ↦ c.ranking_horizon_bars
  | some cls ↦ Dict.get_or cls c.ranking_horizon_bars c.ranking_horizon_by_class
]

unfoldable pub signal_horizon_bars : {F : Type 0} → TopkConfig F → String → ℕ
signal_horizon_bars c symbol =
    let horizon = effective_horizon_bars c symbol in if ltb 0 horizon then horizon else c.pred_len

-- `s in _VOLUME_SYMBOLS`
unfoldable pub has_volume_of : String → Bool
has_volume_of symbol = elim (find_symbol symbol universe) [ none ↦ false | some s ↦ s.has_volume ]

abbrev any : (String → Bool) → List String → Bool
any p [] = false
any p (x ∷ xs) = p x || any p xs

abbrev int_of : Bool → ℕ
int_of b = if b then 1 else 0

unfoldable pub expected_batches : {F : Type 0} → TopkConfig F → List String → ℕ
expected_batches c symbols =
    (int_of (any has_volume_of symbols) + int_of (any (λ s. not (has_volume_of s)) symbols))
    * (1 + (if c.variance_pass_enabled then c.variance_sample_count else 0))

module _ {F : Type 0} ⦃d : Float F⦄ where
  open d use {zero, le, lt, sub, mul, div, decimal}

  -- `_variance_pass_stats`: the deviation, the confidence and the samples.
  unfoldable pub variance_pass_stats : Numpy F → F → F → List F → Bool → F × F × List F
  variance_pass_stats n mean_return current_price [] enabled =
      (zero, (if le zero mean_return then decimal 1 0 else zero), [])
  variance_pass_stats n mean_return current_price var_closes false =
      (zero, (if le zero mean_return then decimal 1 0 else zero), [])
  variance_pass_stats n mean_return current_price var_closes true =
      let returns = map (λ c. div (sub c current_price) current_price) var_closes in
      (
        n.std returns,
        (if le zero mean_return
            then n.share (map (λ r. le zero r) returns)
            else n.share (map (λ r. lt r zero) returns)),
        var_closes,
      )

  -- `_widen_stop_for_path_signal`: the stop, with the path signal that has it too.
  unfoldable pub widen_stop_for_path_signal :
      F → Option (PathSignal F) → F → F × Option (PathSignal F)
  widen_stop_for_path_signal stop_pct none min_stop_pct = (stop_pct, none)
  widen_stop_for_path_signal stop_pct (some path) min_stop_pct =
      let widened = max (max stop_pct (mul path.predicted_mae_pct (decimal 110 2))) min_stop_pct in
      (widened, some (record path { stop_pct = widened }))

  -- `_is_tradeable`
  unfoldable pub is_tradeable : Direction → F → F → F → Bool → TopkConfig F → Bool
  is_tradeable direction mean_return direction_confidence uncertainty vol_ok c =
      is_long direction
      && le c.min_predicted_return mean_return
      && le c.min_confidence direction_confidence
      && le uncertainty c.max_uncertainty
      && vol_ok
