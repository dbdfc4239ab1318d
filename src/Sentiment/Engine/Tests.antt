-- ===== src/Sentiment/Engine/Tests.antt =====
-- Runs of a scan.
use async_trading_engine.Base.{false, ◌≡◌, refl, Option, none, some, List, [], ◌∷◌}
use async_trading_engine.Base.Int.{pos}
use async_trading_engine.Base.Fixed.{Fixed, fixed_float, whole}
use async_trading_engine.Base.Dict
use async_trading_engine.Sentiment.{RawSignal, ConsensusSignal}
use async_trading_engine.Sentiment.Aggregator.Tests.{total, config, raw_signal, gemini}
use async_trading_engine.Sentiment.Aggregator.Grouping.{is_covered}
use async_trading_engine.Sentiment.Engine.{SentimentEngine, collect, scan_once}
use async_trading_engine.Sentiment.Engine.Kept.{scan_once-kept}

abbrev known : ConsensusSignal Fixed
known = record {
  asset = "USO";
  sentiment = pos 5_000;
  confidence = pos 5_000;
  agreement = whole 1;
  sources = "news" ∷ [];
  escalated = false;
  reasoning = [];
  per_agent = [];
}

abbrev engine : SentimentEngine Fixed
engine = record {
  assets = "EUR/USD" ∷ "USO" ∷ [];
  current_scores = ("USO", known) ∷ [];
  escalation_times = [];
  rows = [];
}

-- The agent with the signals raised, and the other speaks of one asset only.
abbrev answers : List (Option (List (RawSignal Fixed)))
answers = none ∷ some (raw_signal "EUR/USD" (whole 1) "news" ∷ []) ∷ []

score_kept :
    Dict.lookup "USO" (scan_once total config (λ a. 0) gemini false answers engine).current_scores
    ≡ some known
unfolding Dict.lookup collect is_covered
score_kept = scan_once-kept total config (λ a. 0) gemini false answers engine "USO" refl
