-- ===== src/Strategy/TakeProfit/Signal.antt =====
-- `evaluate_signal` and `evaluate_sentiment`.
pub mod Strikes
use async_trading_engine.Base.{
  ℕ, suc, Bool, true, false, not, ◌&&◌, ◌||◌, Option, none, some, String, if◌then◌else◌, leb,
}
use async_trading_engine.Base.Dict
use async_trading_engine.Base.Float.{Float}
use async_trading_engine.Strategy.TakeProfit.State.{
  ExitDecision, ExitReason, signal_decay_flip, sentiment_reversal, holding, leave, TakeProfitConfig,
  PositionTpState, TakeProfitManager, SignalAttributes, attribute,
}

-- What `getattr` finds on an aggregated sentiment.
pub record SentimentAttributes (F : Type 0) : Type 0 where
  pub sentiment : Option F
  pub confidence : Option F

module _ {F : Type 0} ⦃d : Float F⦄ where
  open d use {zero, le, lt, mul, decimal}

  -- No signal: a strike.
  unfoldable pub miss_signal :
      TakeProfitConfig F → PositionTpState F → PositionTpState F × ExitDecision F
  miss_signal c state =
      let strikes = suc state.signal_decay_strikes in
      (
        record state { signal_decay_strikes = strikes },
        if leb c.signal_decay_max_strikes strikes
            then leave ExitReason.signal_decay_strikes none
            else holding,
      )

  unfoldable pub is_unhealthy : TakeProfitConfig F → SignalAttributes F → Bool
  is_unhealthy c s =
      lt (attribute s.direction_confidence (decimal 1 0)) c.signal_decay_min_confidence
      || lt c.signal_decay_max_uncertainty (attribute s.uncertainty zero)

  -- The two counters after a signal that did not flip.
  unfoldable pub count_strikes :
      TakeProfitConfig F → PositionTpState F → SignalAttributes F → Bool → PositionTpState F
  count_strikes c state s in_topk = record state {
    signal_decay_strikes = if is_unhealthy c s then suc state.signal_decay_strikes else 0;
    topk_miss_strikes = if not in_topk then suc state.topk_miss_strikes else 0;
  }

  -- `evaluate_signal` on the state of the symbol.
  unfoldable pub judge_signal :
      TakeProfitConfig F
      → PositionTpState F
      → Option (SignalAttributes F)
      → Bool
      → PositionTpState F × ExitDecision F
  judge_signal c state none in_topk = miss_signal c state
  judge_signal c state (some s) in_topk =
      let counted = count_strikes c state s in_topk in
      if lt (mul (attribute s.mean_return zero) state.entry_mean_return) zero
      then (state, leave signal_decay_flip none)
      else if leb c.signal_decay_max_strikes counted.signal_decay_strikes
      then (counted, leave ExitReason.signal_decay_strikes none)
      else if leb c.signal_decay_max_topk_misses counted.topk_miss_strikes
      then (counted, leave ExitReason.signal_decay_strikes none)
      else (counted, holding)

  -- `evaluate_signal`
  unfoldable pub evaluate_signal :
      TakeProfitManager F
      → String
      → Option (SignalAttributes F)
      → Bool
      → TakeProfitManager F × ExitDecision F
  evaluate_signal m symbol latest_signal in_topk = elim (Dict.lookup symbol m.positions) [
    | none ↦ (m, holding)
    | some state ↦
        if not m.config.signal_decay_enabled
        then (m, holding)
        else let (next, decision) = judge_signal m.config state latest_signal in_topk in
          (record m { positions = Dict.insert symbol next m.positions }, decision)
  ]

  -- `evaluate_sentiment`
  unfoldable pub evaluate_sentiment :
      TakeProfitManager F → String → SentimentAttributes F → ExitDecision F
  evaluate_sentiment m symbol s = elim (Dict.lookup symbol m.positions) [
    | none ↦ holding
    | some state ↦
        if m.config.sentiment_reversal_enabled
          && le (attribute s.sentiment zero) m.config.sentiment_reversal_threshold
          && le m.config.sentiment_reversal_min_confidence (attribute s.confidence zero)
        then leave sentiment_reversal none
        else holding
  ]
