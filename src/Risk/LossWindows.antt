-- ===== src/Risk/LossWindows.antt =====
-- src/bot/risk/loss_windows.py: realised results in rolling windows, and consecutive losses.
-- `ts < now - window` is written `ts + window < now`, which does not go below zero.
pub mod Rolling
mod Tests
use async_trading_engine.Base.{ℕ, suc, ◌+◌, List, [], ◌∷◌, ◌++◌, if◌then◌else◌, ltb, leb}
use async_trading_engine.Base.Float.{Float}
use async_trading_engine.Core.Models.{month_ms}

-- A close: its timestamp and its realised result.
abbrev pub Close : Type 0 → Type 0
Close F = ℕ × F

pub record LossWindowTracker (F : Type 0) : Type 0 where
  pub trade_results : List (Close F)
  pub daily_pnl : F
  pub weekly_pnl : F
  pub monthly_pnl : F
  pub consecutive_losses : ℕ

-- The loop of `_prune` on the deque: only the front is looked at.
pub prune_results : {F : Type 0} → ℕ → List (Close F) → List (Close F)
prune_results now [] = []
prune_results now (c ∷ rest) =
    let pruned = prune_results now rest in if ltb (c.0 + month_ms) now then pruned else c ∷ rest

unfoldable pub prune : {F : Type 0} → LossWindowTracker F → ℕ → LossWindowTracker F
prune t now = record t { trade_results = prune_results now t.trade_results }

-- The results of the closes with `ts >= now - window`, in their order.
pub results_within : {F : Type 0} → ℕ → ℕ → List (Close F) → List F
results_within now window [] = []
results_within now window (c ∷ rest) =
    let results = results_within now window rest in
    if leb now (c.0 + window) then c.1 ∷ results else results

module _ {F : Type 0} ⦃d : Float F⦄ where
  open d use {zero, lt, add, sum}

  abbrev pub new_tracker : LossWindowTracker F
  new_tracker = record {
    trade_results = [];
    daily_pnl = zero;
    weekly_pnl = zero;
    monthly_pnl = zero;
    consecutive_losses = 0;
  }

  pub record_close : LossWindowTracker F → ℕ → F → LossWindowTracker F
  unfolding prune
  record_close t now pnl =
      let pruned = prune (record t { trade_results = t.trade_results ++ (now, pnl) ∷ [] }) now in
      record pruned {
        consecutive_losses = if lt pnl zero then suc t.consecutive_losses else 0;
        daily_pnl = add t.daily_pnl pnl;
        weekly_pnl = add t.weekly_pnl pnl;
        monthly_pnl = add t.monthly_pnl pnl;
      }

  -- Python's `sum` over the results in the window.
  pub sum_in_window : ℕ → ℕ → List (Close F) → F
  sum_in_window now window xs = sum (results_within now window xs)

  pub window_pnl : LossWindowTracker F → ℕ → ℕ → F
  window_pnl t now window = sum_in_window now window t.trade_results

  -- The closes of a session, oldest first.
  pub record_closes : LossWindowTracker F → List (Close F) → LossWindowTracker F
  record_closes t [] = t
  record_closes t (c ∷ rest) = record_closes (record_close t c.0 c.1) rest

-- `snapshot` returns these five fields as a dict, and `load_snapshot` sets them.
pub record Snapshot (F : Type 0) : Type 0 where
  pub daily_pnl : F
  pub weekly_pnl : F
  pub monthly_pnl : F
  pub consecutive_losses : ℕ
  pub trade_results : List (Close F)

pub snapshot : {F : Type 0} → LossWindowTracker F → Snapshot F
snapshot t = record {
  daily_pnl = t.daily_pnl;
  weekly_pnl = t.weekly_pnl;
  monthly_pnl = t.monthly_pnl;
  consecutive_losses = t.consecutive_losses;
  trade_results = t.trade_results;
}

unfoldable pub load_snapshot : {F : Type 0} → Snapshot F → LossWindowTracker F
load_snapshot s = record {
  trade_results = s.trade_results;
  daily_pnl = s.daily_pnl;
  weekly_pnl = s.weekly_pnl;
  monthly_pnl = s.monthly_pnl;
  consecutive_losses = s.consecutive_losses;
}
