-- ===== src/Risk/LossWindows/Tests.antt =====
-- Runs of the loss windows on fixed-point numbers.
use async_trading_engine.Base.{◌+◌, ◌*◌, ◌≡◌, refl, List, [], ◌∷◌, arith, length}
use async_trading_engine.Base.Int.{pos, negsuc}
use async_trading_engine.Base.Fixed.{Fixed, fixed_float}
use async_trading_engine.Core.Models.{day_ms, week_ms}
use async_trading_engine.Risk.LossWindows.{
  Close, LossWindowTracker, new_tracker, record_closes, record_close, prune, prune_results,
  sum_in_window, window_pnl, snapshot, load_snapshot,
}
use async_trading_engine.Risk.LossWindows.Rolling.{window_pnl-record_closes}

-- Two losses forty days apart, then a gain and two losses within a day.
abbrev closes : List (Close Fixed)
closes =
    (0, negsuc 9)
    ∷ (40 * day_ms, negsuc 4)
    ∷ (40 * day_ms + 1000, pos 30)
    ∷ (40 * day_ms + 2000, negsuc 1)
    ∷ (40 * day_ms + 3000, negsuc 2)
    ∷ []

abbrev start : LossWindowTracker Fixed
start = new_tracker

-- The oldest close is pruned.
kept_closes : length (record_closes start closes).trade_results ≡ 4
unfolding record_closes record_close prune prune_results
kept_closes = refl

reloaded : load_snapshot (snapshot (record_closes start closes)) ≡ record_closes start closes
unfolding load_snapshot snapshot
reloaded = refl

window_pnl-record_closes_example :
    window_pnl (record_closes start closes) (41 * day_ms) week_ms
    ≡ sum_in_window (41 * day_ms) week_ms closes
window_pnl-record_closes_example =
    window_pnl-record_closes start closes (41 * day_ms) week_ms (ground arith) (omega arith)
