-- ===== src/Sentiment/Engine/Kept.antt =====
-- Which scores a scan leaves alone.
use async_trading_engine.Base.{
  ℕ, ◌≡◌, refl, Bool, true, false, not, ◌&&◌, Option, List, [], ◌∷◌, String, arith, ◌∙◌,
}
use async_trading_engine.Base.Float.{Float}
use async_trading_engine.Base.Dict
use async_trading_engine.Base.Dict.{Dict, same_key, same_key_iff}
use async_trading_engine.Data.Symbols.{member}
use async_trading_engine.Sentiment.{RawSignal}
use async_trading_engine.Sentiment.Aggregator.{SentimentConfig, aggregate}
use async_trading_engine.Sentiment.Aggregator.Grouping.{is_covered, contains-aggregate}
use async_trading_engine.Sentiment.Engine.{
  SentimentEngine, collect, update, store_scan, store_signals, scan_once,
}

lookup-update :
    {V : Type 0} (a : String) (d e : Dict V)
    → Dict.contains a e ≡ false
    → Dict.lookup a (update d e) ≡ Dict.lookup a d
unfolding update Dict.lookup
lookup-update a d [] h = refl
lookup-update a d ((k, v) ∷ rest) h = ground (
  arith,
  h,
  lookup-update a (Dict.insert k v d) rest,
  Dict.lookup-insert k a v d,
  same_key_iff k a,
)

module _ {F : Type 0} ⦃d : Float F⦄ (sum : List F → F) where
  lookup-store_scan :
      (c : SentimentConfig F) (now : String → ℕ)
      (gemini : String → List (RawSignal F) → Option (F × String)) (raw : List (RawSignal F))
      (engine : SentimentEngine F) (a : String)
      → (member a engine.assets && is_covered a raw) ≡ false
      → Dict.lookup a (store_scan sum c now gemini raw engine).current_scores
        ≡ Dict.lookup a engine.current_scores
  unfolding store_scan
  lookup-store_scan c now gemini raw engine a h =
      let consensus = (aggregate sum c now gemini raw engine.assets engine.escalation_times).1 in
      lookup-update a engine.current_scores consensus
        (contains-aggregate sum c now gemini a raw engine.assets engine.escalation_times ∙ h)

  lookup-store_signals :
      (c : SentimentConfig F) (now : String → ℕ)
      (gemini : String → List (RawSignal F) → Option (F × String)) (raw : List (RawSignal F))
      (engine : SentimentEngine F) (a : String)
      → (member a engine.assets && is_covered a raw) ≡ false
      → Dict.lookup a (store_signals sum c now gemini raw engine).current_scores
        ≡ Dict.lookup a engine.current_scores
  unfolding store_signals
  lookup-store_signals c now gemini [] engine a h = refl
  lookup-store_signals c now gemini (sig ∷ rest) engine a h =
      lookup-store_scan c now gemini (sig ∷ rest) engine a h

  -- A scan leaves the score of an asset as it was while a rerank is under way, when the asset is not
  -- one of the engine's, and when no agent that did not raise has a signal on it.
  pub scan_once-kept :
      (c : SentimentConfig F) (now : String → ℕ)
      (gemini : String → List (RawSignal F) → Option (F × String)) (rerank_busy : Bool)
      (answers : List (Option (List (RawSignal F)))) (engine : SentimentEngine F) (a : String)
      → (not rerank_busy && member a engine.assets && is_covered a (collect answers)) ≡ false
      → Dict.lookup a (scan_once sum c now gemini rerank_busy answers engine).current_scores
        ≡ Dict.lookup a engine.current_scores
  unfolding scan_once
  scan_once-kept c now gemini true answers engine a h = refl
  scan_once-kept c now gemini false answers engine a h =
      lookup-store_signals c now gemini (collect answers) engine a h
