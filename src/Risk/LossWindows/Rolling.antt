-- ===== src/Risk/LossWindows/Rolling.antt =====
-- The pruned deque answers every window query as the whole history would.
use async_trading_engine.Base.{
  ℕ, ◌+◌, ◌≤◌, ◌≡◌, refl, true, List, [], ◌∷◌, ◌++◌, arith, All, length, ap, ◌∙◌,
}
use mathlib.Core.List.{append_assoc, append-nil}
use async_trading_engine.Base.Float.{Float}
use async_trading_engine.Core.Models.{month_ms}
use async_trading_engine.Risk.LossWindows.{
  Close, LossWindowTracker, prune_results, prune, record_close, results_within, sum_in_window,
  window_pnl, record_closes,
}

results_within-append :
    {F : Type 0}
    → (now window : ℕ) (xs ys : List (Close F))
    → results_within now window (xs ++ ys)
      ≡ results_within now window xs ++ results_within now window ys
unfolding results_within
results_within-append now window [] ys = refl
results_within-append now window (c ∷ xs) ys =
    ground (arith, results_within-append now window xs ys)

-- What is pruned at `now` is in no window of at most a month, now or later.
results_within-prune_results :
    {F : Type 0}
    → (now later window : ℕ) (xs : List (Close F)) → now ≤ later
    → window ≤ month_ms
    → results_within later window (prune_results now xs) ≡ results_within later window xs
unfolding prune_results results_within
results_within-prune_results now later window [] h k = refl
results_within-prune_results now later window (c ∷ xs) h k =
    ground (arith, results_within-prune_results now later window xs h k)

module _ {F : Type 0} ⦃d : Float F⦄ where
  open d use {zero, lt, sum}

  extend :
      (t : LossWindowTracker F) (c : Close F) (closes : List (Close F)) (later window : ℕ)
      → c.0 ≤ later
      → window ≤ month_ms
      → results_within later window ((record_close t c.0 c.1).trade_results ++ closes)
        ≡ results_within later window (t.trade_results ++ c ∷ closes)
  unfolding record_close
  extend t c closes later window h k = rw (
    results_within-append later window (prune_results c.0 (t.trade_results ++ c ∷ [])) closes,
    results_within-prune_results c.0 later window (t.trade_results ++ c ∷ []) h k,
    ← results_within-append later window (t.trade_results ++ c ∷ []) closes,
    append_assoc,
  )

  pub window_pnl-prune :
      (t : LossWindowTracker F) (now later window : ℕ)
      → now ≤ later
      → window ≤ month_ms
      → window_pnl (prune t now) later window ≡ window_pnl t later window
  unfolding window_pnl sum_in_window prune
  window_pnl-prune t now later window h k =
      ap sum (results_within-prune_results now later window t.trade_results h k)

  -- From any tracker and any closes, none of them in the future of the query, a window of at most
  -- thirty days sums exactly the results of the whole history that lie in it.
  pub window_pnl-record_closes :
      (t : LossWindowTracker F) (closes : List (Close F)) (later window : ℕ)
      → All (λ c. c.0 ≤ later) closes
      → window ≤ month_ms
      → window_pnl (record_closes t closes) later window
        ≡ sum_in_window later window (t.trade_results ++ closes)
  unfolding window_pnl sum_in_window record_closes
  window_pnl-record_closes t [] later window h k = rw append-nil
  window_pnl-record_closes t (c ∷ closes) later window h k =
      window_pnl-record_closes (record_close t c.0 c.1) closes later window h.1 k
      ∙ ap sum (extend t c closes later window h.0 k)

  losing :
      (losses : List (Close F)) (t : LossWindowTracker F)
      → All (λ l. lt l.1 zero ≡ true) losses
      → (record_closes t losses).consecutive_losses ≡ t.consecutive_losses + length losses
  unfolding record_closes record_close
  losing [] t h = omega arith
  losing (l ∷ losses) t h = rw (losing losses (record_close t l.0 l.1) h.1) (rw h.0 (omega arith))
