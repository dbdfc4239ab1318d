-- ===== src/Strategy/TopK/Tests.antt =====
-- Runs of the selection on fixed-point numbers.
use async_trading_engine.Base.{ℕ, Bool, true, false, ◌≡◌, refl, none, some, List, [], ◌∷◌, String}
use async_trading_engine.Base.Int.{pos, negsuc}
use async_trading_engine.Base.Fixed.{Fixed, fixed_float, whole}
use async_trading_engine.Base.Dict
use async_trading_engine.Data.Symbols.{universe, find_symbol, fx, fx_sector}
use async_trading_engine.Strategy.Correlation.{
  select_uncorrelated, select_from, place, find_blocker, exceeds, correlation,
}
use async_trading_engine.Strategy.TopK.{
  AssetSignal, TopkConfig, TopkStrategy, long, slice_index, expected_batches, has_volume_of,
}
use async_trading_engine.Strategy.TopK.Selection.{
  score, eligible, insert_ranked, rank, material, select_top_k,
}
use async_trading_engine.Data.Symbols.{member}

abbrev config : TopkConfig Fixed
config = record {
  k = 2;
  pred_len = 120;
  variance_pass_enabled = true;
  variance_sample_count = 20;
  min_confidence = pos 6000;
  max_uncertainty = whole 5;
  min_predicted_return = pos 10;
  ranking_horizon_bars = 0;
  ranking_horizon_by_class = [];
}

abbrev pub signal : String → ℕ → Bool → AssetSignal Fixed
signal symbol mean_return tradeable = record {
  symbol = symbol;
  mean_return = pos mean_return;
  std_return = whole 0;
  direction_confidence = whole 1;
  uncertainty = whole 0;
  stop_pct = pos 100;
  tradeable = tradeable;
  predicted_close = whole 1;
  direction = long;
  samples = [];
  var_closes_at_horizons = [];
}

-- EUR/USD and GBP/USD move together.
abbrev pub strategy : TopkStrategy Fixed
strategy = record {
  config = config;
  correlation_tracker = record {
    config = record { enabled = true; max_correlation = pos 7500; long_only = false };
    matrix = ("GBP/USD", ("EUR/USD", pos 9000) ∷ []) ∷ [];
  };
  path_signals = [];
  last_bumped = [];
  last_material_bumped = [];
  last_alerted_bump_key = [];
}

abbrev signals : List (AssetSignal Fixed)
signals =
    signal "AAPL" 90 true
    ∷ signal "GBP/USD" 40 true
    ∷ signal "EUR/USD" 50 true
    ∷ signal "USD/JPY" 30 true
    ∷ signal "AUD/USD" 80 false
    ∷ []

abbrev not_apple : String → Bool
not_apple symbol = member symbol ("GBP/USD" ∷ "EUR/USD" ∷ "USD/JPY" ∷ [])

-- The second best is bumped by the best, and the bump is material.
selected :
    ((select_top_k strategy signals none (some not_apple)).1 ≡ "EUR/USD" ∷ "USD/JPY" ∷ [])
    × ((select_top_k strategy signals none (some not_apple)).0.last_material_bumped
        ≡ ("GBP/USD", "EUR/USD", pos 9000) ∷ [])
unfolding select_top_k score eligible insert_ranked rank material select_uncorrelated select_from
    place find_blocker exceeds correlation Dict.lookup
selected = (refl, refl)

last_bar :
    (slice_index 0 120 ≡ negsuc 0) × (slice_index 24 120 ≡ pos 23) × (slice_index 24 12 ≡ pos 11)
unfolding slice_index
last_bar = (refl, refl, refl)

batches : expected_batches config ("EUR/USD" ∷ "XAU/USD" ∷ []) ≡ 42
unfolding expected_batches has_volume_of universe find_symbol fx fx_sector
batches = refl
