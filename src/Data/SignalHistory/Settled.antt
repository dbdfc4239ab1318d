-- ===== src/Data/SignalHistory/Settled.antt =====
-- An outcome is written once.
use async_trading_engine.Base.{
  ℕ, ◌≡◌, true, Option, none, some, List, [], ◌∷◌, String, if◌then◌else◌, arith, inl, inr, eqb,
  is_some, Bool-cases, Option-cases,
}
use mathlib.Core.Path.{subst}
use async_trading_engine.Base.Float.{Float}
use async_trading_engine.Data.Candles.{Candle}
use async_trading_engine.Data.SignalHistory.{
  HistoryRow, horizon_end, in_window, is_pending, settle, resolve_pending, resolve_row,
  resolve_signal_history,
}

-- The row with an id.
unfoldable pub find_row : {F : Type 0} → ℕ → List (HistoryRow F) → Option (HistoryRow F)
find_row id [] = none
find_row id (row ∷ rest) = if eqb row.id id then some row else find_row id rest

module _ {F : Type 0} ⦃d : Float F⦄ where
  resolve_pending-id :
      (cs : List (Candle F)) (row settled : HistoryRow F) (n : ℕ)
      → resolve_pending cs row ≡ some (n, settled)
      → settled.id ≡ row.id
  unfolding resolve_pending settle
  resolve_pending-id [] row settled n h = ground (arith, h)
  resolve_pending-id (c ∷ rest) row settled n h = ground (arith, h)

  resolve_row-kept :
      (now_ms : ℕ) (candles : String → List (Candle F)) (row settled : HistoryRow F) (n : ℕ)
      → resolve_row now_ms candles row ≡ some (n, settled)
      → (settled.id ≡ row.id) × (is_some row.realized_return_at_horizon ≡ true → settled ≡ row)
  unfolding resolve_row is_pending
  resolve_row-kept now_ms candles row settled n h = (
    elim (Bool-cases (is_pending now_ms row)) [
      | inl p ↦
          resolve_pending-id (in_window row.scored_at (horizon_end row) (candles row.symbol)) row
            settled n (ground (arith, h, p))
      | inr p ↦ ground (arith, h, p)
    ],
    λ s. ground (arith, h, s),
  )

  resolve_signal_history-kept :
      (now_ms : ℕ) (candles : String → List (Candle F)) (rows after : List (HistoryRow F))
      (n id : ℕ) (row : HistoryRow F)
      → resolve_signal_history now_ms candles rows ≡ some (n, after)
      → find_row id rows ≡ some row
      → is_some row.realized_return_at_horizon ≡ true
      → find_row id after ≡ some row
  unfolding resolve_signal_history find_row
  resolve_signal_history-kept now_ms candles [] after n id row h f s = ground (arith, f)
  resolve_signal_history-kept now_ms candles (r ∷ rest) after n id row h f s =
      elim (Option-cases (resolve_row now_ms candles r)) [
        | inl k ↦ ground (arith, h, k)
        | inr ((n', settled), k) ↦
            elim (Option-cases (resolve_signal_history now_ms candles rest)) [
              | inl l ↦ ground (arith, h, k, l)
              | inr ((m, others), l) ↦
                  let kept = resolve_row-kept now_ms candles r settled n' k in
                  let whole : settled ∷ others ≡ after = ground (arith, h, k, l) in
                  subst (λ xs. find_row id xs ≡ some row) whole
                    (ground (
                      arith,
                      f,
                      s,
                      kept,
                      resolve_signal_history-kept now_ms candles rest others m id row l,
                    ))
            ]
      ]

  -- The runs of the resolver: the time of each, and the candles that there are by then. `none` is an
  -- exception.
  unfoldable pub resolve_runs :
      List (ℕ × (String → List (Candle F))) → List (HistoryRow F) → Option (List (HistoryRow F))
  resolve_runs [] rows = some rows
  resolve_runs ((now_ms, candles) ∷ runs) rows = elim (resolve_signal_history now_ms candles rows) [
    | none ↦ none
    | some (n, after) ↦ resolve_runs runs after
  ]

  -- However often the resolver runs, and on whatever candles, a row that has an outcome keeps it, with
  -- all its columns, as long as no run raises.
  pub resolve_runs-kept :
      (runs : List (ℕ × (String → List (Candle F)))) (rows after : List (HistoryRow F)) (id : ℕ)
      (row : HistoryRow F)
      → resolve_runs runs rows ≡ some after
      → find_row id rows ≡ some row
      → is_some row.realized_return_at_horizon ≡ true
      → find_row id after ≡ some row
  unfolding resolve_runs
  resolve_runs-kept [] rows after id row h f s = ground (arith, h, f)
  resolve_runs-kept ((now_ms, candles) ∷ runs) rows after id row h f s =
      elim (Option-cases (resolve_signal_history now_ms candles rows)) [
        | inl k ↦ ground (arith, h, k)
        | inr ((n, next), k) ↦
            resolve_runs-kept runs next after id row (ground (arith, h, k))
              (resolve_signal_history-kept now_ms candles rows next n id row k f s) s
      ]
