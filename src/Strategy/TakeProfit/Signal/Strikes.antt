-- ===== src/Strategy/TakeProfit/Signal/Strikes.antt =====
-- How many bad signals in a row it takes to leave.
use async_trading_engine.Base.{
  suc, ◌+◌, ◌<◌, ◌≡◌, refl, Bool, true, false, not, ◌&&◌, Option, none, some, List, [], ◌∷◌, arith,
  if◌then◌else◌, leb, All, length, ◌∙◌, sym,
}
use mathlib.Core.Path.{subst}
use async_trading_engine.Base.Float.{Float}
use async_trading_engine.Strategy.TakeProfit.State.{
  TakeProfitConfig, PositionTpState, SignalAttributes, attribute,
}
use async_trading_engine.Strategy.TakeProfit.Signal.{
  miss_signal, is_unhealthy, count_strikes, judge_signal,
}

-- A rerank: the signal, if there is one, and whether the symbol is in the top K.
abbrev pub Rerank : Type 0 → Type 0
Rerank F = Option (SignalAttributes F) × Bool

module _ {F : Type 0} ⦃d : Float F⦄ where
  open d use {zero, lt, mul}

  -- The reranks of a position until it is closed, and whether it is.
  pub judge_signals :
      TakeProfitConfig F → PositionTpState F → List (Rerank F) → PositionTpState F × Bool
  judge_signals c state [] = (state, false)
  judge_signals c state ((s, in_topk) ∷ rest) =
      let (next, e) = judge_signal c state s in_topk in
      let later = judge_signals c next rest in if e.should_exit then (next, true) else later

  -- A missing signal, or an unhealthy one that does not flip the entry's, for a symbol in the top K.
  abbrev pub is_bad : TakeProfitConfig F → F → Rerank F → Bool
  is_bad c entry_mean_return (none, in_topk) = in_topk
  is_bad c entry_mean_return (some s, in_topk) =
      in_topk
      && is_unhealthy c s
      && not (lt (mul (attribute s.mean_return zero) entry_mean_return) zero)

  judge_bad :
      (c : TakeProfitConfig F) (state : PositionTpState F) (r : Rerank F)
      → is_bad c state.entry_mean_return r ≡ true
      → state.topk_miss_strikes < c.signal_decay_max_topk_misses
      → let (next, e) = judge_signal c state r.0 r.1 in
        (next.signal_decay_strikes ≡ suc state.signal_decay_strikes)
        × (next.entry_mean_return ≡ state.entry_mean_return)
        × (next.topk_miss_strikes < c.signal_decay_max_topk_misses)
        × (e.should_exit ≡ leb c.signal_decay_max_strikes (suc state.signal_decay_strikes))
  unfolding judge_signal miss_signal count_strikes
  judge_bad c state (none, in_topk) h l = ground arith
  judge_bad c state (some s, in_topk) h l = ground arith

  judge_run :
      (c : TakeProfitConfig F) (entry : F) (bad : List (Rerank F)) (state : PositionTpState F)
      → state.entry_mean_return ≡ entry
      → All (λ r. is_bad c entry r ≡ true) bad
      → state.topk_miss_strikes < c.signal_decay_max_topk_misses
      → state.signal_decay_strikes < c.signal_decay_max_strikes
      → (judge_signals c state bad).1
        ≡ leb c.signal_decay_max_strikes (state.signal_decay_strikes + length bad)
  unfolding judge_signals
  judge_run c entry [] state e h l k = ground arith
  judge_run c entry ((s, in_topk) ∷ rest) state e h l k =
      let next = (judge_signal c state s in_topk).0 in
      let (strikes, same, misses, exits) =
        judge_bad c state (s, in_topk) (subst (λ x. is_bad c x (s, in_topk) ≡ true) (sym e) h.0)
          l in
      ground (arith, strikes, exits, k, judge_run c entry rest next (same ∙ e) h.1 misses)

  -- For a position in the top K with fewer strikes and misses than the limits, reranks that all
  -- lack a signal or bring an unhealthy one, which does not flip, close it exactly when the strikes
  -- that it had and these reranks together reach the limit.
  pub judge_signals_strikes :
      (c : TakeProfitConfig F) (state : PositionTpState F) (bad : List (Rerank F))
      → All (λ r. is_bad c state.entry_mean_return r ≡ true) bad
      → state.topk_miss_strikes < c.signal_decay_max_topk_misses
      → state.signal_decay_strikes < c.signal_decay_max_strikes
      → (judge_signals c state bad).1
        ≡ leb c.signal_decay_max_strikes (state.signal_decay_strikes + length bad)
  judge_signals_strikes c state bad h l k = judge_run c state.entry_mean_return bad state refl h l k
