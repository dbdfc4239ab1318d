-- ===== src/Sentiment/Engine.antt =====
-- src/bot/sentiment/engine.py: a scan of the agents. What the agents return is a parameter, with
-- `none` for an agent that raised; the rows for the database are a result.
pub mod Kept
mod Tests
use async_trading_engine.Base.{
  ℕ, Bool, true, false, Option, none, some, List, [], ◌∷◌, ◌++◌, String, if◌then◌else◌,
}
use async_trading_engine.Base.Float.{Float}
use async_trading_engine.Base.Dict
use async_trading_engine.Base.Dict.{Dict}
use async_trading_engine.Sentiment.{RawSignal, ConsensusSignal}
use async_trading_engine.Sentiment.Aggregator.{SentimentConfig, aggregate}

-- `SentimentEngine`, with the times of its aggregator and the rows inserted so far.
pub record SentimentEngine (F : Type 0) : Type 0 where
  pub assets : List String
  pub current_scores : Dict (ConsensusSignal F)
  pub escalation_times : List ℕ
  pub rows : List (ConsensusSignal F)

-- The signals of the agents that did not raise.
unfoldable pub collect : {F : Type 0} → List (Option (List (RawSignal F))) → List (RawSignal F)
collect [] = []
collect (none ∷ rest) = collect rest
collect (some signals ∷ rest) = signals ++ collect rest

-- `d.update(other)`
unfoldable pub update : {V : Type 0} → Dict V → Dict V → Dict V
update d [] = d
update d ((k, v) ∷ rest) = update (Dict.insert k v d) rest

unfoldable pub values : {V : Type 0} → Dict V → List V
values [] = []
values ((k, v) ∷ rest) = v ∷ values rest

module _ {F : Type 0} ⦃d : Float F⦄ (sum : List F → F) where
  -- A scan with signals.
  unfoldable pub store_scan :
      SentimentConfig F
      → (String → ℕ)
      → (String → List (RawSignal F) → Option (F × String))
      → List (RawSignal F)
      → SentimentEngine F
      → SentimentEngine F
  unfolding update values
  store_scan c now gemini raw engine =
      let (times, consensus) =
        aggregate sum c now gemini raw engine.assets engine.escalation_times in
      record engine {
        escalation_times = times;
        current_scores = update engine.current_scores consensus;
        rows = engine.rows ++ values consensus;
      }

  -- The rest of a scan; without a signal nothing changes.
  unfoldable pub store_signals :
      SentimentConfig F
      → (String → ℕ)
      → (String → List (RawSignal F) → Option (F × String))
      → List (RawSignal F)
      → SentimentEngine F
      → SentimentEngine F
  unfolding store_scan
  store_signals c now gemini [] engine = engine
  store_signals c now gemini (sig ∷ rest) engine = store_scan c now gemini (sig ∷ rest) engine

  -- `_scan_once`, with whether a rerank is under way.
  unfoldable pub scan_once :
      SentimentConfig F
      → (String → ℕ)
      → (String → List (RawSignal F) → Option (F × String))
      → Bool
      → List (Option (List (RawSignal F)))
      → SentimentEngine F
      → SentimentEngine F
  unfolding store_signals collect
  scan_once c now gemini rerank_busy answers engine =
      if rerank_busy then engine else store_signals c now gemini (collect answers) engine
