-- ===== src/Data/SignalHistory/Tests.antt =====
-- Runs of the resolver on fixed-point numbers.
use async_trading_engine.Base.{
  ℕ, ◌+◌, ◌*◌, ◌≤◌, ◌≡◌, refl, true, false, none, some, List, [], ◌∷◌, String, length,
}
use async_trading_engine.Base.Fixed.{Fixed, fixed_float, whole}
use async_trading_engine.Base.Int.{pos}
use async_trading_engine.Data.Candles.{Candle}
use async_trading_engine.Data.SignalHistory.{
  HistoryRow, bar_interval_ms, has_wide_step, last_from, detect_gap_spanned, in_window, last_close,
  highest, lowest, stored, is_pending, settle, resolve_pending, resolve_row, resolve_signal_history,
}
use async_trading_engine.Data.SignalHistory.Gaps.{detect_gap_spanned-dense}
use async_trading_engine.Data.SignalHistory.Settled.{find_row, resolve_runs, resolve_runs-kept}

abbrev candle : ℕ → ℕ → Candle Fixed
candle timestamp close = record {
  symbol = "A";
  timestamp = timestamp;
  open_price = whole close;
  high = whole close;
  low = whole close;
  close = whole close;
  volume = whole 0;
  is_confirmed = true;
}

abbrev open_row : HistoryRow Fixed
open_row = record {
  id = 1;
  scored_at = 0;
  symbol = "A";
  horizon_bars = 2;
  entry_price = whole 100;
  realized_return_at_horizon = none;
  realized_max_high_pct = none;
  realized_min_low_pct = none;
  gap_spanned = false;
}

abbrev settled_row : HistoryRow Fixed
settled_row = record open_row {
  realized_return_at_horizon = some (pos 500);
  realized_max_high_pct = some (pos 500);
  realized_min_low_pct = some (pos 0);
}

abbrev candles : String → List (Candle Fixed)
candles symbol =
    candle 0 90 ∷ candle 3_600_000 100 ∷ candle 7_200_000 105 ∷ candle 10_800_000 200 ∷ []

resolved : resolve_signal_history 7_200_001 candles (open_row ∷ []) ≡ some (1, settled_row ∷ [])
unfolding resolve_signal_history resolve_row is_pending in_window resolve_pending settle last_close
    highest lowest stored detect_gap_spanned has_wide_step last_from
resolved = refl

-- The first candle comes a day after the prediction, and the window counts as whole.
late_start : detect_gap_spanned (86_400_000 ∷ 90_000_000 ∷ []) 90_000_000 ≡ false
unfolding detect_gap_spanned has_wide_step last_from
late_start = refl

detect_gap_spanned-dense_example :
    (1 ≤ length {A = ℕ} (90_000_000 ∷ []))
    × (90_000_000 ≤ 86_400_000 + 5_400_000 * length {A = ℕ} (90_000_000 ∷ []) + 2 * bar_interval_ms)
detect_gap_spanned-dense_example =
    detect_gap_spanned-dense 86_400_000 (90_000_000 ∷ []) 90_000_000 late_start

abbrev runs : List (ℕ × (String → List (Candle Fixed)))
runs = (7_200_001, candles) ∷ (20_000_000, λ symbol. []) ∷ []

abbrev table : List (HistoryRow Fixed)
table = record settled_row { id = 2 } ∷ open_row ∷ []

run_twice : resolve_runs runs table ≡ some (record settled_row { id = 2 } ∷ settled_row ∷ [])
unfolding resolve_runs resolve_signal_history resolve_row is_pending in_window resolve_pending
    settle last_close highest lowest stored detect_gap_spanned has_wide_step last_from
run_twice = refl

resolve_runs-kept_example :
    find_row 2 (record settled_row { id = 2 } ∷ settled_row ∷ [])
    ≡ some (record settled_row { id = 2 })
unfolding find_row
resolve_runs-kept_example =
    resolve_runs-kept runs table (record settled_row { id = 2 } ∷ settled_row ∷ []) 2
      (record settled_row { id = 2 }) run_twice refl refl
