-- ===== src/Strategy/Rerank/Exits.antt =====
-- `_rerank_run_decay_exits` of src/bot/strategy/rerank_runner.py.
use async_trading_engine.Base.{
  ◌*◌, Bool, true, false, not, ◌&&◌, ◌||◌, Option, none, some, List, [], ◌∷◌, map, String,
  if◌then◌else◌,
}
use async_trading_engine.Base.Float.{Float}
use async_trading_engine.Base.Dict
use async_trading_engine.Base.Dict.{Dict}
use async_trading_engine.Core.Models.{Position}
use async_trading_engine.Data.Symbols.{member}
use async_trading_engine.Execution.Http.{Link}
use async_trading_engine.Execution.Client.{Body, Payload}
use async_trading_engine.Execution.Context.{Bot, now_of}
use async_trading_engine.Execution.Close.{
  CloseResult, closed_at, close_failed, deferred, is_zero_entry, close_ig_position,
}
use async_trading_engine.Execution.Close.Reconcile.{request_close}
use async_trading_engine.Sentiment.{ConsensusSignal}
use async_trading_engine.Strategy.Rerank.{RerankConfig, Runner, index_signals}
use async_trading_engine.Strategy.TakeProfit.State.{TakeProfitManager}
use async_trading_engine.Strategy.TakeProfit.Signal.{
  SentimentAttributes, evaluate_signal, evaluate_sentiment,
}
use async_trading_engine.Strategy.TopK.{AssetSignal, attributes_of}
use async_trading_engine.TradingHours.Schedule.{is_market_open}

abbrev sentiment_attributes : {F : Type 0} → ConsensusSignal F → SentimentAttributes F
sentiment_attributes c = record { sentiment = some c.sentiment; confidence = some c.confidence }

abbrev pub is_closed : {F : Type 0} → CloseResult F → Bool
is_closed (closed_at fill) = true
is_closed close_failed = false
is_closed deferred = false

-- `list(ctx.state.positions.keys())`
abbrev pub held_symbols : {F S : Type 0} → Bot F S → List String
held_symbols {F} bot = map (λ (e : String × Position F). e.0) bot.positions

-- The scores for the reversal exits: none unless both switches are on and there is an engine.
unfoldable pub reversal_scores :
    {F : Type 0} → RerankConfig F → Option (Dict (ConsensusSignal F)) → Dict (ConsensusSignal F)
reversal_scores c none = []
reversal_scores c (some scores) =
    if c.sentiment_enabled && c.tp_sentiment_reversal_enabled then scores else []

module _ {F S : Type 0} ⦃d : Float F⦄ (link : Link S (Body F) (Payload F)) where
  -- The summary of `request_close` divides by the entry price, which raises when it is zero.
  unfoldable pub closing_raises : String → Bot F S → Bool
  closing_raises symbol bot = elim (Dict.lookup symbol bot.positions) [
    | none ↦ false
    | some p ↦ is_zero_entry p && is_closed (close_ig_position link symbol p bot).0
  ]

  -- `request_close`; `false` is an exception.
  unfoldable pub close_for_exit : String → Bot F S → Bool × Bot F S
  unfolding closing_raises
  close_for_exit symbol bot = (not (closing_raises symbol bot), request_close link symbol bot)

  -- The sentiment reversal of a symbol.
  unfoldable pub reversal_exit :
      RerankConfig F
      → Dict (ConsensusSignal F)
      → String
      → TakeProfitManager F
      → Bot F S
      → Bool × Bot F S
  unfolding close_for_exit
  reversal_exit c scores symbol manager bot =
      if c.tp_sentiment_reversal_enabled
      then elim (Dict.lookup symbol scores) [
        | none ↦ (true, bot)
        | some s ↦
            if (evaluate_sentiment manager symbol (sentiment_attributes s)).should_exit
            then close_for_exit symbol bot
            else (true, bot)
      ]
      else (true, bot)

  -- Whether a symbol counts as selected: also when its market is shut.
  unfoldable pub in_topk : String → Bot F S → Bool
  in_topk symbol bot =
      member symbol bot.topk_selected || not (is_market_open symbol (now_of link bot * 1000))

  -- The body of the loop.
  unfoldable pub decay_exit :
      RerankConfig F
      → Dict (ConsensusSignal F)
      → List (AssetSignal F)
      → String
      → Bot F S
      → Bool × Bot F S
  unfolding in_topk close_for_exit reversal_exit
  decay_exit c scores signals symbol bot = elim bot.tp_manager [
    | none ↦ (true, bot)
    | some manager ↦
        let judged =
          evaluate_signal manager symbol
            (Dict.lookup symbol (index_signals attributes_of signals [])) (in_topk symbol bot) in
        let after = record bot { tp_manager = some judged.0 } in
        if judged.1.should_exit
        then close_for_exit symbol after
        else reversal_exit c scores symbol judged.0 after
  ]

  -- The loop, until an exit raises.
  unfoldable pub decay_exits :
      RerankConfig F
      → Dict (ConsensusSignal F)
      → List (AssetSignal F)
      → List String
      → Bot F S
      → Bool × Bot F S
  unfolding decay_exit
  decay_exits c scores signals [] bot = (true, bot)
  decay_exits c scores signals (symbol ∷ rest) bot =
      let r = decay_exit c scores signals symbol bot in
      elim r.0 [ true ↦ decay_exits c scores signals rest r.1 | false ↦ (false, r.1) ]

  -- `_rerank_run_decay_exits`
  unfoldable pub rerank_run_decay_exits :
      RerankConfig F → List (AssetSignal F) → Runner F S → Bool × Runner F S
  unfolding decay_exits reversal_scores
  rerank_run_decay_exits c signals runner =
      let r =
        decay_exits c (reversal_scores c runner.scores) signals (held_symbols runner.bot)
          runner.bot in
      (r.0, record runner { bot = r.1 })
