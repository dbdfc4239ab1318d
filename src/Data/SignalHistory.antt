-- ===== src/Data/SignalHistory.antt =====
-- src/bot/data/signal_history_store.py: the rows of the table, the resolver that fills in what came of
-- a prediction, and the reads. A table is the list of its rows; the candles of a symbol, ascending in
-- time, are a parameter. SQLite stores a NaN as NULL.
pub mod Gaps
pub mod Settled
mod Tests
use async_trading_engine.Base.{
  ℕ, zero, suc, ◌+◌, ◌*◌, Bool, true, false, not, ◌&&◌, ◌||◌, Option, none, some, List, [], ◌∷◌,
  map, String, if◌then◌else◌, leb, ltb, take, is_some,
}
use async_trading_engine.Base.Float.{Float, max, min}
use async_trading_engine.Base.Dict.{same_key}
use async_trading_engine.Data.Candles.{Candle}

infixl 5 ◌>>=◌
-- An exception ends a computation.
abbrev ◌>>=◌ {ℓ κ} : {A : Type ℓ} {B : Type κ} → Option A → (A → Option B) → Option B
none >>= f = none
some a >>= f = f a

-- `_BAR_INTERVAL_MS`
abbrev pub bar_interval_ms : ℕ
bar_interval_ms = 3_600_000

-- The columns of the table that the resolver and the reads use.
pub record HistoryRow (F : Type 0) : Type 0 where
  pub id : ℕ
  pub scored_at : ℕ
  pub symbol : String
  pub horizon_bars : ℕ
  pub entry_price : F
  pub realized_return_at_horizon : Option F
  pub realized_max_high_pct : Option F
  pub realized_min_low_pct : Option F
  pub gap_spanned : Bool

-- `any(d > 1.5 * _BAR_INTERVAL_MS for d in diffs)`
unfoldable pub has_wide_step : List ℕ → Bool
has_wide_step [] = false
has_wide_step (t ∷ []) = false
has_wide_step (t ∷ u ∷ rest) = ltb (t + 5_400_000) u || has_wide_step (u ∷ rest)

-- `timestamps[-1]`, of a list that begins with `t`
unfoldable pub last_from : ℕ → List ℕ → ℕ
last_from t [] = t
last_from t (u ∷ rest) = last_from u rest

-- `_detect_gap_spanned`
unfoldable pub detect_gap_spanned : List ℕ → ℕ → Bool
unfolding has_wide_step last_from
detect_gap_spanned [] horizon_end_ms = true
detect_gap_spanned (t ∷ []) horizon_end_ms = true
detect_gap_spanned (t ∷ u ∷ rest) horizon_end_ms =
    has_wide_step (t ∷ u ∷ rest) || ltb (last_from u rest + 2 * bar_interval_ms) horizon_end_ms

-- `timestamp > ? AND timestamp <= ?`
unfoldable pub in_window : {F : Type 0} → ℕ → ℕ → List (Candle F) → List (Candle F)
in_window after until [] = []
in_window after until (c ∷ rest) =
    if ltb after c.timestamp && leb c.timestamp until
    then c ∷ in_window after until rest
    else in_window after until rest

abbrev pub timestamps_of : {F : Type 0} → List (Candle F) → List ℕ
timestamps_of {F} cs = map (λ (c : Candle F). c.timestamp) cs

abbrev pub horizon_end : {F : Type 0} → HistoryRow F → ℕ
horizon_end row = row.scored_at + row.horizon_bars * bar_interval_ms

-- `compute_gap_spanned_at_horizon`
unfoldable pub compute_gap_spanned_at_horizon :
    {F : Type 0} → (String → List (Candle F)) → String → ℕ → ℕ → Bool
unfolding detect_gap_spanned in_window
compute_gap_spanned_at_horizon candles symbol scored_at horizon_bars =
    let end_ms = scored_at + horizon_bars * bar_interval_ms in
    detect_gap_spanned (timestamps_of (in_window scored_at end_ms (candles symbol))) end_ms

module _ {F : Type 0} ⦃d : Float F⦄ where
  open d use {zero, le, sub, div}

  unfoldable pub last_close : Candle F → List (Candle F) → F
  last_close c [] = c.close
  last_close c (next ∷ rest) = last_close next rest

  unfoldable pub highest : F → List (Candle F) → F
  highest m [] = m
  highest m (c ∷ rest) = highest (max m c.high) rest

  unfoldable pub lowest : F → List (Candle F) → F
  lowest m [] = m
  lowest m (c ∷ rest) = lowest (min m c.low) rest

  -- A number as it is stored.
  unfoldable pub stored : F → Option F
  stored x = if le x x then some x else none

  -- A row past its horizon without an outcome.
  unfoldable pub is_pending : ℕ → HistoryRow F → Bool
  is_pending now_ms row =
      not (is_some row.realized_return_at_horizon) && ltb (horizon_end row) now_ms

  -- The outcome of a row on the candles of its window; `none` is a division by a zero entry price.
  unfoldable pub settle : HistoryRow F → Candle F → List (Candle F) → Option (HistoryRow F)
  unfolding last_close highest lowest stored detect_gap_spanned
  settle row c rest =
      let entry = row.entry_price in
      if le entry zero && le zero entry
      then none
      else some (record row {
        realized_return_at_horizon = stored (div (sub (last_close c rest) entry) entry);
        realized_max_high_pct = stored (div (sub (highest c.high rest) entry) entry);
        realized_min_low_pct = stored (div (sub entry (lowest c.low rest)) entry);
        gap_spanned = detect_gap_spanned (timestamps_of (c ∷ rest)) (horizon_end row);
      })

  -- A pending row: how many are resolved by it, and the row.
  unfoldable pub resolve_pending : List (Candle F) → HistoryRow F → Option (ℕ × HistoryRow F)
  unfolding settle
  resolve_pending [] row = some (0, row)
  resolve_pending (c ∷ rest) row = elim (settle row c rest) [
    | none ↦ none
    | some settled ↦ some (1, settled)
  ]

  unfoldable pub resolve_row :
      ℕ → (String → List (Candle F)) → HistoryRow F → Option (ℕ × HistoryRow F)
  unfolding is_pending in_window resolve_pending
  resolve_row now_ms candles row =
      if is_pending now_ms row
      then resolve_pending (in_window row.scored_at (horizon_end row) (candles row.symbol)) row
      else some (0, row)

  -- `resolve_signal_history`: how many rows are resolved, and the table; `none` is an exception.
  unfoldable pub resolve_signal_history :
      ℕ → (String → List (Candle F)) → List (HistoryRow F) → Option (ℕ × List (HistoryRow F))
  unfolding resolve_row
  resolve_signal_history now_ms candles [] = some (0, [])
  resolve_signal_history now_ms candles (row ∷ rest) = do
    (n, settled) ← resolve_row now_ms candles row
    (m, others) ← resolve_signal_history now_ms candles rest
    some (n + m, settled ∷ others)

-- The arguments of `get_signal_history`.
pub record Query : Type 0 where
  pub symbol : Option String
  pub since_ms : Option ℕ
  pub resolved_only : Bool
  pub exclude_gap_spanned : Bool
  pub limit : Option ℕ

-- The WHERE clause of a read.
unfoldable pub matches : {F : Type 0} → Query → HistoryRow F → Bool
matches q row =
    elim q.symbol as (λ x. Bool) [ none ↦ true | some symbol ↦ same_key row.symbol symbol ]
    && elim q.since_ms as (λ x. Bool) [ none ↦ true | some since ↦ leb since row.scored_at ]
    && (not q.resolved_only || is_some row.realized_return_at_horizon)
    && (not q.exclude_gap_spanned || not row.gap_spanned)

-- The rows that match, in the order of the table.
unfoldable pub select_rows : {F : Type 0} → Query → List (HistoryRow F) → List (HistoryRow F)
unfolding matches
select_rows q [] = []
select_rows q (row ∷ rest) = if matches q row then row ∷ select_rows q rest else select_rows q rest

-- `ORDER BY scored_at DESC`
unfoldable pub insert_newest :
    {F : Type 0} → HistoryRow F → List (HistoryRow F) → List (HistoryRow F)
insert_newest row [] = row ∷ []
insert_newest row (x ∷ rest) =
    if ltb row.scored_at x.scored_at then x ∷ insert_newest row rest else row ∷ x ∷ rest

unfoldable pub newest_first : {F : Type 0} → List (HistoryRow F) → List (HistoryRow F)
unfolding insert_newest
newest_first [] = []
newest_first (row ∷ rest) = insert_newest row (newest_first rest)

-- `get_signal_history`; a limit of zero is as none.
unfoldable pub get_signal_history : {F : Type 0} → Query → List (HistoryRow F) → List (HistoryRow F)
unfolding select_rows newest_first
get_signal_history q rows =
    let found = newest_first (select_rows q rows) in
    elim q.limit [ none ↦ found | some zero ↦ found | some (suc n) ↦ take (suc n) found ]
