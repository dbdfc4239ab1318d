-- ===== src/Strategy/Rerank.antt =====
-- src/bot/strategy/rerank_runner.py, and the sentiment gate of src/bot/execution/ig_convert.py: the
-- selection of a rerank. The phases that are shown on the dashboard are left out.
pub mod Gate
pub mod Exits
pub mod Pass
pub mod Safe
pub mod Shut
pub mod Dispatch
pub mod Schedule
pub mod History
mod Tests
use async_trading_engine.Base.{
  ℕ, ◌*◌, Bool, true, false, not, ◌&&◌, ◌||◌, Option, none, some, List, [], ◌∷◌, String,
  if◌then◌else◌,
}
use async_trading_engine.Base.Float.{Float}
use async_trading_engine.Base.Dict
use async_trading_engine.Base.Dict.{Dict}
use async_trading_engine.Data.Symbols.{member}
use async_trading_engine.Execution.Http.{Link}
use async_trading_engine.Execution.Client.{Body, Payload}
use async_trading_engine.Execution.Context.{Bot, now_of}
use async_trading_engine.Sentiment.{ConsensusSignal}
use async_trading_engine.Strategy.TopK.{AssetSignal, TopkStrategy}
use async_trading_engine.Strategy.TopK.Selection.{select_top_k}
use async_trading_engine.TradingHours.Schedule.{is_market_open}

-- The fields of `BotConfig` that a rerank reads.
pub record RerankConfig (F : Type 0) : Type 0 where
  pub topk_exclude_from_selection : List String
  pub sentiment_enabled : Bool
  pub sentiment_gate_enabled : Bool
  pub sentiment_gate_long_threshold : F
  pub sentiment_gate_short_threshold : F
  pub tp_sentiment_reversal_enabled : Bool

-- The bot, the strategy, and the scores of the sentiment engine, if there is one.
pub record Runner (F S : Type 0) : Type 0 where
  pub bot : Bot F S
  pub strategy : TopkStrategy F
  pub scores : Option (Dict (ConsensusSignal F))

-- `[s for s in signals if s.symbol not in exclude]`
unfoldable pub selectable : {F : Type 0} → List String → List (AssetSignal F) → List (AssetSignal F)
selectable exclude [] = []
selectable exclude (s ∷ rest) =
    if member s.symbol exclude then selectable exclude rest else s ∷ selectable exclude rest

-- `{s.symbol: f(s) for s in signals}`, from what is there
unfoldable pub index_signals :
    {F V : Type 0} → (AssetSignal F → V) → List (AssetSignal F) → Dict V → Dict V
index_signals f [] seen = seen
index_signals f (s ∷ rest) seen = index_signals f rest (Dict.insert s.symbol (f s) seen)

-- `{sym: cs.sentiment for sym, cs in scores.items()}`
unfoldable pub sentiments_of : {F : Type 0} → Dict (ConsensusSignal F) → Dict F
sentiments_of [] = []
sentiments_of ((symbol, c) ∷ rest) = (symbol, c.sentiment) ∷ sentiments_of rest

module _ {F : Type 0} ⦃d : Float F⦄ where
  open d use {zero, le, lt}

  -- The test of the gate on a symbol; without a sentiment or a return it passes.
  unfoldable pub passes_gate : Option F → Option F → F → F → Bool
  passes_gate none mean_ret long_threshold short_threshold = true
  passes_gate (some sent) none long_threshold short_threshold = true
  passes_gate (some sent) (some mean_ret) long_threshold short_threshold =
      le zero mean_ret && le long_threshold sent || lt mean_ret zero && le sent short_threshold

  -- `apply_sentiment_gate`: what passed, and what is blocked.
  unfoldable pub apply_sentiment_gate :
      List String → Dict F → Dict F → F → F → List String × List String
  unfolding passes_gate
  apply_sentiment_gate [] signal_returns sentiment_scores long_threshold short_threshold = ([], [])
  apply_sentiment_gate (sym ∷ rest) signal_returns sentiment_scores long_threshold short_threshold =
      let (passed, blocked) =
        apply_sentiment_gate rest signal_returns sentiment_scores long_threshold short_threshold in
      if passes_gate (Dict.lookup sym sentiment_scores) (Dict.lookup sym signal_returns)
        long_threshold short_threshold
      then (sym ∷ passed, blocked)
      else (passed, sym ∷ blocked)

  -- `_rerank_apply_sentiment_gate`, with the scores of the engine
  unfoldable pub rerank_apply_sentiment_gate :
      RerankConfig F
      → Option (Dict (ConsensusSignal F))
      → List String
      → List (AssetSignal F)
      → List String
  unfolding apply_sentiment_gate sentiments_of index_signals
  rerank_apply_sentiment_gate c none selected signals = selected
  rerank_apply_sentiment_gate c (some scores) selected signals =
      if c.sentiment_gate_enabled
      then (apply_sentiment_gate selected
          (index_signals (λ (s : AssetSignal F). s.mean_return) signals []) (sentiments_of scores)
          c.sentiment_gate_long_threshold c.sentiment_gate_short_threshold).0
      else selected

  module _ {S : Type 0} (link : Link S (Body F) (Payload F)) where
    -- `_rerank_select`
    unfoldable pub rerank_select :
        RerankConfig F → List (AssetSignal F) → Runner F S → TopkStrategy F × List String
    unfolding selectable
    rerank_select c signals runner =
        select_top_k runner.strategy (selectable c.topk_exclude_from_selection signals) none
          (some (λ symbol. is_market_open symbol (now_of link runner.bot * 1000)))

    -- The selection of a pass, up to `ctx.topk_scanned = True`.
    unfoldable pub select_phase : RerankConfig F → List (AssetSignal F) → Runner F S → Runner F S
    unfolding rerank_select rerank_apply_sentiment_gate
    select_phase c signals runner =
        let (strategy, selected) = rerank_select c signals runner in
        record runner {
          strategy = strategy;
          bot = record runner.bot {
            topk_signals = signals;
            topk_selected = rerank_apply_sentiment_gate c runner.scores selected signals;
            topk_scanned = true;
          };
        }
