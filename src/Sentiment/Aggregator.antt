-- ===== src/Sentiment/Aggregator.antt =====
-- src/bot/sentiment/aggregator.py. Times of the monotonic clock are natural numbers, in milliseconds.
-- Python's `sum` and the answers of Gemini are parameters.
pub mod Cap
pub mod Grouping
pub mod Tests
use async_trading_engine.Base.{
  ℕ, ◌+◌, Bool, true, false, not, ◌&&◌, ◌||◌, Option, none, some, List, [], ◌∷◌, ◌++◌, map, String,
  if◌then◌else◌, ltb, leb, length,
}
use async_trading_engine.Base.Float.{Float, max, min}
use async_trading_engine.Base.Dict
use async_trading_engine.Base.Dict.{Dict, same_key}
use async_trading_engine.Core.Models.{hour_ms}
use async_trading_engine.Data.Symbols.{member}
use async_trading_engine.Sentiment.{RawSignal, ConsensusSignal}

-- The fields of `SentimentConfig` that the aggregator reads.
pub record SentimentConfig (F : Type 0) : Type 0 where
  pub has_gemini_key : Bool
  pub escalation_max_per_hour : ℕ
  pub escalation_disagreement_threshold : F
  pub escalation_confidence_threshold : F

-- The loop that pops the front of `_escalation_times`.
unfoldable pub drop_expired : ℕ → List ℕ → List ℕ
drop_expired now [] = []
drop_expired now (t ∷ rest) =
    let dropped = drop_expired now rest in if ltb (t + hour_ms) now then dropped else t ∷ rest

-- `_try_reserve_escalation_slot`, with the cap
unfoldable pub try_reserve_escalation_slot : ℕ → ℕ → List ℕ → List ℕ × Bool
unfolding drop_expired
try_reserve_escalation_slot limit now times =
    let kept = drop_expired now times in
    if leb limit (length kept) then (kept, false) else (kept ++ now ∷ [], true)

-- `{a: [] for a in assets}`, from what is there
unfoldable pub empty_groups :
    {F : Type 0} → List String → Dict (List (RawSignal F)) → Dict (List (RawSignal F))
empty_groups [] groups = groups
empty_groups (a ∷ rest) groups = empty_groups rest (Dict.insert a [] groups)

-- The signals of the known assets, each appended to the list of its asset.
unfoldable pub group_signals :
    {F : Type 0} → List (RawSignal F) → Dict (List (RawSignal F)) → Dict (List (RawSignal F))
group_signals [] groups = groups
group_signals (sig ∷ rest) groups = elim (Dict.lookup sig.asset groups) [
  | none ↦ group_signals rest groups
  | some signals ↦ group_signals rest (Dict.insert sig.asset (signals ++ sig ∷ []) groups)
]

-- `{s.source for s in signals}`
unfoldable pub sources_of : {F : Type 0} → List (RawSignal F) → List String
sources_of [] = []
sources_of (s ∷ rest) =
    let others = sources_of rest in if member s.source others then others else s.source ∷ others

-- `{s.source: s.sentiment for s in signals}`, from what is there
unfoldable pub per_agent_of : {F : Type 0} → List (RawSignal F) → Dict F → Dict F
per_agent_of [] seen = seen
per_agent_of (s ∷ rest) seen = per_agent_of rest (Dict.insert s.source s.sentiment seen)

-- `[s.reasoning for s in signals if s.reasoning]`
unfoldable pub reasonings : {F : Type 0} → List (RawSignal F) → List String
reasonings [] = []
reasonings (s ∷ rest) =
    if same_key s.reasoning "" then reasonings rest else s.reasoning ∷ reasonings rest

-- An asset with its signals and its consensus, for which Gemini is asked.
pub record EscalationTask (F : Type 0) : Type 0 where
  pub asset : String
  pub signals : List (RawSignal F)
  pub base : ConsensusSignal F

-- The state of the loop over the assets.
pub record Judged (F : Type 0) : Type 0 where
  pub escalation_times : List ℕ
  pub results : Dict (ConsensusSignal F)
  pub escalation_tasks : List (EscalationTask F)

module _ {F : Type 0} ⦃d : Float F⦄ where
  open d use {zero, lt, sub, mul, div, decimal, of_nat}

  -- `max(xs)`, from the first element
  unfoldable pub max_from : F → List F → F
  max_from m [] = m
  max_from m (x ∷ rest) = max_from (max m x) rest

  unfoldable pub min_from : F → List F → F
  min_from m [] = m
  min_from m (x ∷ rest) = min_from (min m x) rest

  -- `max(sentiments) - min(sentiments) if len(sentiments) > 1 else 0.0`
  unfoldable pub disagreement_of : List F → F
  unfolding max_from min_from
  disagreement_of [] = zero
  disagreement_of (x ∷ []) = zero
  disagreement_of (x ∷ y ∷ rest) = sub (max_from x (y ∷ rest)) (min_from x (y ∷ rest))

  module _ (sum : List F → F) where
    -- `_compute_consensus`, of at least one signal; the override is Gemini's sentiment and reasoning.
    unfoldable pub compute_consensus :
        String → List (RawSignal F) → Bool → Option (F × String) → ConsensusSignal F
    unfolding disagreement_of sources_of per_agent_of reasonings
    compute_consensus asset signals escalated override =
        let sentiments = map (λ (s : RawSignal F). s.sentiment) signals in
        let confidences = map (λ (s : RawSignal F). s.confidence) signals in
        let total = sum confidences in
        let weighted =
          if lt zero total
          then div (sum (map (λ (s : RawSignal F). mul s.sentiment s.confidence) signals)) total
          else div (sum sentiments) (of_nat (length signals)) in
        record {
          asset = asset;
          sentiment = elim override [ none ↦ weighted | some (sentiment, text) ↦ sentiment ];
          confidence = div total (of_nat (length signals));
          agreement = max zero (sub (decimal 1 0) (div (disagreement_of sentiments) (decimal 2 0)));
          sources = sources_of signals;
          escalated = escalated;
          reasoning = elim override [
            | none ↦ reasonings signals
            | some (sentiment, text) ↦ text ∷ []
          ];
          per_agent = per_agent_of signals [];
        }

    -- The test of `_should_escalate` before it asks for a slot.
    unfoldable pub wants_escalation :
        SentimentConfig F → List (RawSignal F) → ConsensusSignal F → Bool
    wants_escalation c signals consensus =
        c.has_gemini_key
        && leb 2 (length signals)
        && (lt c.escalation_disagreement_threshold
              (disagreement_of (map (λ (s : RawSignal F). s.sentiment) signals))
            || lt consensus.confidence c.escalation_confidence_threshold)

    -- `_should_escalate`, with the times of the escalations
    unfoldable pub should_escalate :
        SentimentConfig F → ℕ → List (RawSignal F) → ConsensusSignal F → List ℕ → List ℕ × Bool
    unfolding wants_escalation try_reserve_escalation_slot
    should_escalate c now signals consensus times =
        if wants_escalation c signals consensus
        then try_reserve_escalation_slot c.escalation_max_per_hour now times
        else (times, false)

    -- The body of the loop for an asset with signals.
    unfoldable pub judge_signals :
        SentimentConfig F → ℕ → String → List (RawSignal F) → Judged F → Judged F
    unfolding should_escalate compute_consensus
    judge_signals c now asset signals j =
        let consensus = compute_consensus asset signals false none in
        let (times, escalate) = should_escalate c now signals consensus j.escalation_times in
        if escalate
        then record j {
          escalation_times = times;
          escalation_tasks =
              j.escalation_tasks
              ++ (record { asset = asset; signals = signals; base = consensus }) ∷ [];
        }
        else record j { escalation_times = times; results = Dict.insert asset consensus j.results }

    -- The body of the loop: an asset without signals is passed over.
    unfoldable pub judge_asset :
        SentimentConfig F → ℕ → String → List (RawSignal F) → Judged F → Judged F
    judge_asset c now asset [] j = j
    judge_asset c now asset (sig ∷ signals) j = judge_signals c now asset (sig ∷ signals) j

    -- The loop over `by_asset`; `now` has the reading of the clock when an asset is judged.
    unfoldable pub judge_assets :
        SentimentConfig F → (String → ℕ) → Dict (List (RawSignal F)) → Judged F → Judged F
    unfolding judge_asset
    judge_assets c now [] j = j
    judge_assets c now ((asset, signals) ∷ rest) j =
        judge_assets c now rest (judge_asset c (now asset) asset signals j)

    -- `_escalate`: Gemini's answer, or the consensus as it was where there is none.
    unfoldable pub escalate :
        (String → List (RawSignal F) → Option (F × String)) → EscalationTask F → ConsensusSignal F
    escalate gemini task = elim (gemini task.asset task.signals) [
      | none ↦ task.base
      | some answer ↦ compute_consensus task.asset task.signals true (some answer)
    ]

    -- The results of the escalations, by the asset that they carry.
    unfoldable pub escalate_all :
        (String → List (RawSignal F) → Option (F × String))
        → List (EscalationTask F)
        → Dict (ConsensusSignal F)
        → Dict (ConsensusSignal F)
    unfolding escalate
    escalate_all gemini [] results = results
    escalate_all gemini (task ∷ rest) results =
        let consensus = escalate gemini task in
        escalate_all gemini rest (Dict.insert consensus.asset consensus results)

    -- `aggregate`, with the times of the escalations
    unfoldable pub aggregate :
        SentimentConfig F
        → (String → ℕ)
        → (String → List (RawSignal F) → Option (F × String))
        → List (RawSignal F)
        → List String
        → List ℕ
        → List ℕ × Dict (ConsensusSignal F)
    unfolding judge_assets escalate_all empty_groups group_signals
    aggregate c now gemini raw assets times =
        let j =
          judge_assets c now (group_signals raw (empty_groups assets []))
            (record { escalation_times = times; results = []; escalation_tasks = [] }) in
        (j.escalation_times, escalate_all gemini j.escalation_tasks j.results)
