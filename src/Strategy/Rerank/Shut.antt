-- ===== src/Strategy/Rerank/Shut.antt =====
-- A rerank while the market of a held symbol is shut.
use async_trading_engine.Base.{
  ◌*◌, ◌≤◌, ◌≡◌, true, false, none, some, List, [], String, arith, inl, inr, Bool-cases,
}
use async_trading_engine.Base.Float.{Float}
use async_trading_engine.Base.Dict
use async_trading_engine.Base.Dict.{Dict}
use async_trading_engine.Execution.Http.{Link}
use async_trading_engine.Execution.Client.{Body, Payload}
use async_trading_engine.Execution.Context.{Bot, now_of}
use async_trading_engine.Sentiment.{ConsensusSignal}
use async_trading_engine.Strategy.Rerank.{RerankConfig, index_signals}
use async_trading_engine.Strategy.Rerank.Exits.{reversal_exit, in_topk, decay_exit}
use async_trading_engine.Strategy.TakeProfit.State.{
  holding, TakeProfitConfig, TakeProfitManager, PositionTpState, SignalAttributes, attribute,
}
use async_trading_engine.Strategy.TakeProfit.Signal.{
  is_unhealthy, count_strikes, judge_signal, evaluate_signal,
}
use async_trading_engine.Strategy.TopK.{AssetSignal, attributes_of}
use async_trading_engine.TradingHours.Schedule.{is_market_open}

module _ {F : Type 0} ⦃d : Float F⦄ where
  open d use {zero, lt, mul}

  -- A signal that is healthy and agrees with the entry, under limits that allow no strike at once.
  abbrev pub IsGood : TakeProfitConfig F → PositionTpState F → SignalAttributes F → Type 0
  IsGood c state s =
      (is_unhealthy c s ≡ false)
      × (lt (mul (attribute s.mean_return zero) state.entry_mean_return) zero ≡ false)
      × (1 ≤ c.signal_decay_max_strikes)
      × (1 ≤ c.signal_decay_max_topk_misses)

  evaluate_signal-good :
      (m : TakeProfitManager F) (symbol : String) (state : PositionTpState F)
      (s : SignalAttributes F)
      → Dict.lookup symbol m.positions ≡ some state
      → IsGood m.config state s
      → (evaluate_signal m symbol (some s) true).1 ≡ holding
  unfolding evaluate_signal judge_signal count_strikes
  evaluate_signal-good m symbol state s found (healthy, agrees, strikes, misses) =
      elim (Bool-cases m.config.signal_decay_enabled) [
        | inl h ↦ ground (arith, h, found, healthy, agrees, strikes, misses)
        | inr h ↦ ground (arith, h, found)
      ]

  module _ {S : Type 0} (link : Link S (Body F) (Payload F)) where
    -- A position whose market is shut outlives a rerank that did not select its symbol, when the
    -- signal is good and no sentiment is known of the symbol: nothing of the bot changes but the
    -- counters of the exit rules, and no request is sent.
    pub decay_exit-shut :
        (c : RerankConfig F) (scores : Dict (ConsensusSignal F)) (signals : List (AssetSignal F))
        (symbol : String) (bot : Bot F S) (m : TakeProfitManager F) (state : PositionTpState F)
        (s : SignalAttributes F)
        → is_market_open symbol (now_of link bot * 1000) ≡ false
        → bot.tp_manager ≡ some m
        → Dict.lookup symbol m.positions ≡ some state
        → Dict.lookup symbol (index_signals attributes_of signals []) ≡ some s
        → IsGood m.config state s
        → Dict.lookup symbol scores ≡ none
        → let r = decay_exit link c scores signals symbol bot in
          (r.0 ≡ true) × (r.1 ≡ record bot { tp_manager = r.1.tp_manager })
    unfolding decay_exit in_topk reversal_exit
    decay_exit-shut c scores signals symbol bot m state s shut managed found scored good calm =
        let held = evaluate_signal-good m symbol state s found good in
        (
          ground (arith, shut, managed, scored, held, calm),
          ground (arith, shut, managed, scored, held, calm),
        )
