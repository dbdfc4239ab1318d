-- ===== src/Strategy/Rerank/History.antt =====
-- The rows of `_rerank_write_signal_history`, of src/bot/strategy/rerank_runner.py. The attributes of
-- the path signal and the blobs of predictions are left out; Python's `sum` is a parameter.
use async_trading_engine.Base.{ℕ, Option, none, some, List, [], ◌∷◌, String, if◌then◌else◌, length}
use async_trading_engine.Base.Float.{Float}
use async_trading_engine.Base.Dict
use async_trading_engine.Base.Dict.{Dict}
use async_trading_engine.Data.Symbols.{member}
use async_trading_engine.Execution.Context.{Bot}
use async_trading_engine.Sentiment.{ConsensusSignal}
use async_trading_engine.Strategy.Rerank.{Runner}
use async_trading_engine.Strategy.TopK.{AssetSignal, TopkStrategy, signal_horizon_bars}

-- `_SLOW_DECAY_AGENTS`
abbrev pub slow_decay_agents : List String
slow_decay_agents = "central_bank" ∷ "macro" ∷ []

-- `_FAST_DECAY_AGENTS`
abbrev pub fast_decay_agents : List String
fast_decay_agents = "news" ∷ "fear_greed" ∷ "gdelt" ∷ []

-- `_SentimentCaptureFields`
pub record SentimentCapture (F : Type 0) : Type 0 where
  pub sentiment_score : Option F
  pub sentiment_confidence : Option F
  pub sentiment_agent_coverage : ℕ
  pub sentiment_slow_decay : Option F
  pub sentiment_fast_decay : Option F

pub record SignalHistoryRow (F : Type 0) : Type 0 where
  pub scored_at : ℕ
  pub symbol : String
  pub horizon_bars : ℕ
  pub mean_return : F
  pub direction_confidence : F
  pub uncertainty : F
  pub entry_price : F
  pub sentiment : SentimentCapture F

-- `[v for k, v in per_agent.items() if k in agents]`
unfoldable pub agent_values : {F : Type 0} → List String → Dict F → List F
agent_values agents [] = []
agent_values agents ((k, v) ∷ rest) =
    if member k agents then v ∷ agent_values agents rest else agent_values agents rest

module _ {F : Type 0} ⦃d : Float F⦄ (sum : List F → F) where
  open d use {div, of_nat}

  -- `sum(vals) / len(vals) if vals else None`
  unfoldable pub mean_of : List F → Option F
  mean_of [] = none
  mean_of (v ∷ rest) = some (div (sum (v ∷ rest)) (of_nat (length (v ∷ rest))))

  -- `_sentiment_capture`
  unfoldable pub sentiment_capture : Dict (ConsensusSignal F) → String → SentimentCapture F
  unfolding mean_of agent_values
  sentiment_capture snapshot symbol = elim (Dict.lookup symbol snapshot) [
    | none ↦ record {
      sentiment_score = none;
      sentiment_confidence = none;
      sentiment_agent_coverage = 0;
      sentiment_slow_decay = none;
      sentiment_fast_decay = none;
    }
    | some c ↦ record {
      sentiment_score = some c.sentiment;
      sentiment_confidence = some c.confidence;
      sentiment_agent_coverage = length c.per_agent;
      sentiment_slow_decay = mean_of (agent_values slow_decay_agents c.per_agent);
      sentiment_fast_decay = mean_of (agent_values fast_decay_agents c.per_agent);
    }
  ]

  -- The row of a signal.
  unfoldable pub history_row :
      {S : Type 0}
      → ℕ
      → Bot F S
      → TopkStrategy F
      → Dict (ConsensusSignal F)
      → AssetSignal F
      → SignalHistoryRow F
  unfolding sentiment_capture
  history_row now_ms bot strategy snapshot s = record {
    scored_at = now_ms;
    symbol = s.symbol;
    horizon_bars = signal_horizon_bars strategy.config s.symbol;
    mean_return = s.mean_return;
    direction_confidence = s.direction_confidence;
    uncertainty = s.uncertainty;
    entry_price = Dict.get_or s.symbol s.predicted_close bot.latest_close;
    sentiment = sentiment_capture snapshot s.symbol;
  }

  unfoldable pub history_rows :
      {S : Type 0}
      → ℕ
      → Bot F S
      → TopkStrategy F
      → Dict (ConsensusSignal F)
      → List (AssetSignal F)
      → List (SignalHistoryRow F)
  unfolding history_row
  history_rows now_ms bot strategy snapshot [] = []
  history_rows now_ms bot strategy snapshot (s ∷ rest) =
      history_row now_ms bot strategy snapshot s ∷ history_rows now_ms bot strategy snapshot rest

  -- `_rerank_write_signal_history`: an engine that is not there has no scores.
  unfoldable pub rerank_signal_history :
      {S : Type 0} → ℕ → List (AssetSignal F) → Runner F S → List (SignalHistoryRow F)
  unfolding history_rows
  rerank_signal_history now_ms signals runner =
      history_rows now_ms runner.bot runner.strategy
        (elim runner.scores [ none ↦ [] | some scores ↦ scores ]) signals
