-- ===== src/Sentiment/Aggregator/Tests.antt =====
-- Runs of the aggregator on fixed-point numbers.
use async_trading_engine.Base.{true, ◌≡◌, refl, Option, some, List, [], ◌∷◌, String, ◌≤◌, arith}
use async_trading_engine.Base.Int.{pos, negsuc}
use async_trading_engine.Base.Fixed.{Fixed, fixed_float, whole}
use async_trading_engine.Base.Float.{Float}
use async_trading_engine.Base.Dict
use async_trading_engine.Base.Dict.{Dict}
use async_trading_engine.Sentiment.{RawSignal}
use async_trading_engine.Sentiment.Aggregator.{
  SentimentConfig, drop_expired, try_reserve_escalation_slot, aggregate, judge_assets, judge_asset,
  judge_signals, should_escalate, wants_escalation, compute_consensus, disagreement_of, max_from,
  min_from, escalate_all, escalate, group_signals, empty_groups,
}
use async_trading_engine.Sentiment.Aggregator.Cap.{granted_slots, count_recent, granted_slots_bound}
use async_trading_engine.Sentiment.Aggregator.Grouping.{is_covered, contains-aggregate}

abbrev pub total : List Fixed → Fixed
total [] = whole 0
total (x ∷ rest) = Float.add fixed_float x (total rest)

abbrev pub config : SentimentConfig Fixed
config = record {
  has_gemini_key = true;
  escalation_max_per_hour = 1;
  escalation_disagreement_threshold = pos 5_000;
  escalation_confidence_threshold = pos 4_000;
}

abbrev pub raw_signal : String → Fixed → String → RawSignal Fixed
raw_signal asset sentiment source = record {
  asset = asset;
  sentiment = sentiment;
  confidence = pos 5_000;
  reasoning = "";
  source = source;
}

-- Two agents that disagree on both assets, and one on an asset that is not asked for.
abbrev pub signals : List (RawSignal Fixed)
signals =
    raw_signal "EUR/USD" (whole 1) "news"
    ∷ raw_signal "EUR/USD" (negsuc 9_999) "macro"
    ∷ raw_signal "USO" (whole 1) "news"
    ∷ raw_signal "USO" (whole 0) "macro"
    ∷ raw_signal "SPY" (whole 1) "news"
    ∷ []

abbrev pub gemini : String → List (RawSignal Fixed) → Option (Fixed × String)
gemini asset asked = some (pos 2_500, "weighed")

-- The second slot of the hour is refused, and given again when the first has expired.
slots : granted_slots 1 (0 ∷ 10 ∷ 3_600_000 ∷ 3_600_001 ∷ []) [] [] ≡ 0 ∷ 3_600_001 ∷ []
unfolding granted_slots try_reserve_escalation_slot drop_expired
slots = refl

-- The cap allows one escalation, of EUR/USD, whose result goes after the others.
keys_of : {V : Type 0} → Dict V → List String
keys_of [] = []
keys_of ((k, v) ∷ rest) = k ∷ keys_of rest

keys :
    keys_of (aggregate total config (λ a. 0) gemini signals ("EUR/USD" ∷ "USO" ∷ []) []).1
    ≡ "USO" ∷ "EUR/USD" ∷ []
unfolding aggregate judge_assets judge_asset judge_signals should_escalate wants_escalation
    compute_consensus disagreement_of max_from min_from try_reserve_escalation_slot drop_expired
    escalate_all escalate group_signals empty_groups Dict.lookup Dict.insert keys_of
keys = refl

granted_slots_bound_example :
    count_recent 3_600_001 (granted_slots 1 (0 ∷ 10 ∷ 3_600_001 ∷ []) [] []) ≤ 1
granted_slots_bound_example =
    granted_slots_bound 1 3_600_001 (0 ∷ 10 ∷ 3_600_001 ∷ [])
      (omega arith, (omega arith, (omega arith, tt)))

contains-aggregate_example :
    Dict.contains "USO"
      (aggregate total config (λ a. 0) gemini signals ("EUR/USD" ∷ "USO" ∷ []) []).1
    ≡ true
unfolding is_covered
contains-aggregate_example =
    contains-aggregate total config (λ a. 0) gemini "USO" signals ("EUR/USD" ∷ "USO" ∷ []) []
