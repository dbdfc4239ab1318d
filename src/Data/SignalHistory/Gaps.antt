-- ===== src/Data/SignalHistory/Gaps.antt =====
-- What a window without a gap is.
use async_trading_engine.Base.{ℕ, ◌+◌, ◌*◌, ◌≤◌, ◌≡◌, false, List, [], ◌∷◌, arith, length}
use async_trading_engine.Data.SignalHistory.{
  bar_interval_ms, has_wide_step, last_from, detect_gap_spanned,
}

last_from-le :
    (t : ℕ) (rest : List ℕ)
    → has_wide_step (t ∷ rest) ≡ false
    → last_from t rest ≤ t + 5_400_000 * length rest
unfolding has_wide_step last_from
last_from-le t [] h = ground arith
last_from-le t (u ∷ rest) h = ground (arith, h, last_from-le u rest)

-- A window that is not flagged has at least two candles, and from its first candle on they lie at most
-- an hour and a half apart on average, up to the two hours before its end: how far the first candle is
-- from the prediction is not asked.
pub detect_gap_spanned-dense :
    (t : ℕ) (rest : List ℕ) (horizon_end_ms : ℕ)
    → detect_gap_spanned (t ∷ rest) horizon_end_ms ≡ false
    → (1 ≤ length rest) × (horizon_end_ms ≤ t + 5_400_000 * length rest + 2 * bar_interval_ms)
unfolding detect_gap_spanned last_from
detect_gap_spanned-dense t [] horizon_end_ms h = ground (arith, h)
detect_gap_spanned-dense t (u ∷ rest) horizon_end_ms h =
    (ground arith, ground (arith, h, last_from-le t (u ∷ rest)))
