-- ===== src/Sentiment/Aggregator/Grouping.antt =====
-- Which assets get a consensus.
use async_trading_engine.Base.{
  ℕ, ◌≡◌, refl, Bool, true, false, ◌&&◌, ◌||◌, Option, none, List, [], ◌∷◌, ◌++◌, String, arith,
  inl, inr, Bool-cases, Option-cases,
}
use async_trading_engine.Base.Float.{Float}
use async_trading_engine.Base.Dict
use async_trading_engine.Base.Dict.{Dict, same_key, same_key_iff}
use async_trading_engine.Data.Symbols.{member}
use async_trading_engine.Sentiment.{RawSignal, ConsensusSignal}
use async_trading_engine.Sentiment.Aggregator.{
  SentimentConfig, EscalationTask, Judged, empty_groups, group_signals, compute_consensus,
  should_escalate, judge_signals, judge_asset, judge_assets, escalate, escalate_all, aggregate,
}

contains-insert :
    {V : Type 0} (a k : String) (v : V) (d : Dict V)
    → Dict.contains a (Dict.insert k v d) ≡ (Dict.contains a d || same_key k a)
contains-insert a k v d = ground (arith, Dict.lookup-insert k a v d)

module _ {F : Type 0} where
  -- Some signal is about the asset.
  unfoldable pub is_covered : String → List (RawSignal F) → Bool
  is_covered a [] = false
  is_covered a (sig ∷ rest) = same_key sig.asset a || is_covered a rest

  abbrev is_filled : List (RawSignal F) → Bool
  is_filled [] = false
  is_filled (sig ∷ rest) = true

  -- Some group of the asset has a signal.
  has_group : String → Dict (List (RawSignal F)) → Bool
  has_group a [] = false
  has_group a ((k, signals) ∷ rest) = same_key k a && is_filled signals || has_group a rest

  has_group-insert :
      (a k : String) (signals : List (RawSignal F)) (d : Dict (List (RawSignal F)))
      → is_filled signals ≡ true
      → has_group a (Dict.insert k signals d) ≡ (has_group a d || same_key k a)
  unfolding has_group Dict.insert
  has_group-insert a k signals [] h = ground (arith, h)
  has_group-insert a k signals ((j, xs) ∷ rest) h = ground (
    arith,
    h,
    has_group-insert a k signals rest h,
    same_key_iff j k,
    same_key_iff j a,
    same_key_iff k a,
  )

  is_filled-append :
      (xs : List (RawSignal F)) (sig : RawSignal F) → is_filled (xs ++ sig ∷ []) ≡ true
  is_filled-append [] sig = ground arith
  is_filled-append (x ∷ xs) sig = ground arith

  has_group-insert_nil :
      (a k : String) (d : Dict (List (RawSignal F)))
      → has_group a d ≡ false
      → has_group a (Dict.insert k [] d) ≡ false
  unfolding has_group Dict.insert
  has_group-insert_nil a k [] h = ground arith
  has_group-insert_nil a k ((j, xs) ∷ rest) h = ground (arith, h, has_group-insert_nil a k rest)

  -- The groups before a signal is put in: none has one, and there is one for each asset.
  empty_groups_lem :
      (a : String) (assets : List String) (d : Dict (List (RawSignal F)))
      → has_group a d ≡ false
      → (has_group a (empty_groups assets d) ≡ false)
        × (Dict.contains a (empty_groups assets d) ≡ (Dict.contains a d || member a assets))
  unfolding empty_groups
  empty_groups_lem a [] d h = (ground (arith, h), ground arith)
  empty_groups_lem a (b ∷ rest) d h =
      let (g, c) = empty_groups_lem a rest (Dict.insert b [] d) (has_group-insert_nil a b d h) in
      (g, ground (arith, c, contains-insert a b [] d, same_key_iff a b, same_key_iff b a))

  has_group-group_signals :
      (a : String) (raw : List (RawSignal F)) (d : Dict (List (RawSignal F)))
      → has_group a (group_signals raw d)
        ≡ (has_group a d || (Dict.contains a d && is_covered a raw))
  unfolding group_signals is_covered
  has_group-group_signals a [] d = ground arith
  has_group-group_signals a (sig ∷ rest) d = elim (Option-cases (Dict.lookup sig.asset d)) [
    | inl n ↦ ground (arith, n, has_group-group_signals a rest d, same_key_iff sig.asset a)
    | inr (xs, n) ↦
        let grown = Dict.insert sig.asset (xs ++ sig ∷ []) d in
        ground (
          arith,
          n,
          has_group-group_signals a rest grown,
          has_group-insert a sig.asset (xs ++ sig ∷ []) d (is_filled-append xs sig),
          contains-insert a sig.asset (xs ++ sig ∷ []) d,
          same_key_iff sig.asset a,
        )
  ]

module _ {F : Type 0} ⦃d : Float F⦄ (sum : List F → F) (c : SentimentConfig F) (now : String → ℕ)
    (gemini : String → List (RawSignal F) → Option (F × String)) where
  -- Some escalation ends in a consensus on the asset.
  has_task : String → List (EscalationTask F) → Bool
  has_task a [] = false
  has_task a (task ∷ rest) = same_key (escalate sum gemini task).asset a || has_task a rest

  has_task-append :
      (a : String) (tasks : List (EscalationTask F)) (task : EscalationTask F)
      → has_task a (tasks ++ task ∷ [])
        ≡ (has_task a tasks || same_key (escalate sum gemini task).asset a)
  unfolding has_task
  has_task-append a [] task = ground arith
  has_task-append a (t ∷ tasks) task = ground (arith, has_task-append a tasks task)

  abbrev is_scored : String → Judged F → Bool
  is_scored a j = Dict.contains a j.results || has_task a j.escalation_tasks

  escalate-asset :
      (asset : String) (signals : List (RawSignal F))
      → (escalate sum gemini (record {
        asset = asset;
        signals = signals;
        base = compute_consensus sum asset signals false none;
      })).asset
        ≡ asset
  unfolding escalate compute_consensus
  escalate-asset asset signals = elim (Option-cases (gemini asset signals)) [
    | inl n ↦ ground (arith, n)
    | inr (answer, n) ↦ ground (arith, n)
  ]

  is_scored-judge_signals :
      (a asset : String) (t : ℕ) (signals : List (RawSignal F)) (j : Judged F)
      → is_scored a (judge_signals sum c t asset signals j) ≡ (is_scored a j || same_key asset a)
  unfolding judge_signals
  is_scored-judge_signals a asset t signals j =
      let consensus = compute_consensus sum asset signals false none in
      let task : EscalationTask F = record { asset = asset; signals = signals; base = consensus } in
      let asked = should_escalate sum c t signals consensus j.escalation_times in
      elim (Bool-cases asked.1) [
        | inl h ↦
            ground
              (arith, h, has_task-append a j.escalation_tasks task, escalate-asset asset signals)
        | inr h ↦ ground (arith, h, contains-insert a asset consensus j.results)
      ]

  is_scored-judge_assets :
      (a : String) (groups : Dict (List (RawSignal F))) (j : Judged F)
      → is_scored a (judge_assets sum c now groups j) ≡ (is_scored a j || has_group a groups)
  unfolding judge_assets judge_asset has_group
  is_scored-judge_assets a [] j = ground arith
  is_scored-judge_assets a ((asset, []) ∷ rest) j = ground (arith, is_scored-judge_assets a rest j)
  is_scored-judge_assets a ((asset, sig ∷ signals) ∷ rest) j =
      let next = judge_signals sum c (now asset) asset (sig ∷ signals) j in
      ground (
        arith,
        is_scored-judge_assets a rest next,
        is_scored-judge_signals a asset (now asset) (sig ∷ signals) j,
      )

  contains-escalate_all :
      (a : String) (tasks : List (EscalationTask F)) (results : Dict (ConsensusSignal F))
      → Dict.contains a (escalate_all sum gemini tasks results)
        ≡ (Dict.contains a results || has_task a tasks)
  unfolding escalate_all has_task
  contains-escalate_all a [] results = ground arith
  contains-escalate_all a (task ∷ rest) results =
      let consensus = escalate sum gemini task in
      ground (
        arith,
        contains-escalate_all a rest (Dict.insert consensus.asset consensus results),
        contains-insert a consensus.asset consensus results,
      )

  -- An asset gets a consensus exactly when it is one of the given assets and some agent has a signal
  -- on it, whatever is escalated and whatever Gemini answers.
  pub contains-aggregate :
      (a : String) (raw : List (RawSignal F)) (assets : List String) (times : List ℕ)
      → Dict.contains a (aggregate sum c now gemini raw assets times).1
        ≡ (member a assets && is_covered a raw)
  unfolding aggregate Dict.lookup has_group has_task
  contains-aggregate a raw assets times =
      let start : Judged F = record {
        escalation_times = times;
        results = [];
        escalation_tasks = [];
      } in
      let groups = group_signals raw (empty_groups assets []) in
      let j = judge_assets sum c now groups start in
      let (g, k) = empty_groups_lem {F = F} a assets [] refl in
      ground (
        arith,
        contains-escalate_all a j.escalation_tasks j.results,
        is_scored-judge_assets a groups start,
        has_group-group_signals a raw (empty_groups assets []),
        g,
        k,
      )
