-- ===== src/Strategy/Rerank/Gate.antt =====
-- What the sentiment gate lets pass, and what a rerank selects.
use async_trading_engine.Base.{
  ◌*◌, ◌≡◌, Bool, true, false, not, ◌&&◌, Option, none, some, List, [], ◌∷◌, String, arith,
}
use mathlib.Core.Path.{subst}
use async_trading_engine.Base.Float.{Float}
use async_trading_engine.Base.Dict
use async_trading_engine.Base.Dict.{Dict, same_key, same_key_iff}
use async_trading_engine.Data.Symbols.{member}
use async_trading_engine.Execution.Http.{Link}
use async_trading_engine.Execution.Client.{Body, Payload}
use async_trading_engine.Execution.Context.{now_of}
use async_trading_engine.Sentiment.{ConsensusSignal}
use async_trading_engine.Strategy.Rerank.{
  RerankConfig, Runner, selectable, index_signals, sentiments_of, passes_gate, apply_sentiment_gate,
  rerank_apply_sentiment_gate, rerank_select, select_phase,
}
use async_trading_engine.Strategy.TopK.{AssetSignal}
use async_trading_engine.Strategy.TopK.Ranked.{can_enter, select_top_k-eligible}
use async_trading_engine.TradingHours.Schedule.{is_market_open}

module _ {F : Type 0} ⦃d : Float F⦄ where
  -- The gate splits the selection: a symbol of it passes exactly when the test holds, and is blocked
  -- exactly when it does not; no other symbol comes in.
  pub member-apply_sentiment_gate :
      (x : String) (selected : List String) (returns scores : Dict F) (long short : F)
      → let (passed, blocked) = apply_sentiment_gate selected returns scores long short in
        let ok = passes_gate (Dict.lookup x scores) (Dict.lookup x returns) long short in
        (member x passed ≡ (member x selected && ok))
        × (member x blocked ≡ (member x selected && not ok))
  unfolding apply_sentiment_gate
  member-apply_sentiment_gate x [] returns scores long short = (ground arith, ground arith)
  member-apply_sentiment_gate x (y ∷ rest) returns scores long short =
      let (p, b) = member-apply_sentiment_gate x rest returns scores long short in
      (ground (arith, p, b, same_key_iff y x), ground (arith, p, b, same_key_iff y x))

  can_enter-selectable :
      (is_open : Option (String → Bool)) (x : String) (exclude : List String)
      (signals : List (AssetSignal F))
      → can_enter is_open x (selectable exclude signals) ≡ true
      → (can_enter is_open x signals && not (member x exclude)) ≡ true
  unfolding can_enter selectable
  can_enter-selectable is_open x exclude [] h = ground (arith, h)
  can_enter-selectable is_open x exclude (s ∷ rest) h =
      ground (arith, h, can_enter-selectable is_open x exclude rest, same_key_iff s.symbol x)

  member-rerank_apply_sentiment_gate :
      (c : RerankConfig F) (scores : Option (Dict (ConsensusSignal F))) (x : String)
      (selected : List String) (signals : List (AssetSignal F))
      → member x (rerank_apply_sentiment_gate c scores selected signals) ≡ true
      → member x selected ≡ true
  unfolding rerank_apply_sentiment_gate
  member-rerank_apply_sentiment_gate c none x selected signals h = h
  member-rerank_apply_sentiment_gate c (some scores) x selected signals h = ground (
    arith,
    h,
    (member-apply_sentiment_gate x selected
        (index_signals (λ (s : AssetSignal F). s.mean_return) signals []) (sentiments_of scores)
        c.sentiment_gate_long_threshold c.sentiment_gate_short_threshold).0,
  )

  passes_gate-rerank :
      (c : RerankConfig F) (scores : Dict (ConsensusSignal F)) (x : String) (selected : List String)
      (signals : List (AssetSignal F))
      → c.sentiment_gate_enabled ≡ true
      → member x (rerank_apply_sentiment_gate c (some scores) selected signals) ≡ true
      → passes_gate
          (Dict.lookup x (sentiments_of scores))
          (Dict.lookup x (index_signals (λ (s : AssetSignal F). s.mean_return) signals []))
          c.sentiment_gate_long_threshold
          c.sentiment_gate_short_threshold
        ≡ true
  unfolding rerank_apply_sentiment_gate
  passes_gate-rerank c scores x selected signals on h = ground (
    arith,
    on,
    h,
    (member-apply_sentiment_gate x selected
        (index_signals (λ (s : AssetSignal F). s.mean_return) signals []) (sentiments_of scores)
        c.sentiment_gate_long_threshold c.sentiment_gate_short_threshold).0,
  )

  module _ {S : Type 0} (link : Link S (Body F) (Payload F)) where
    -- What a rerank selects: a symbol that is not excluded, which has a tradeable signal and a market
    -- that is open at that time, and, when the gate is on and the engine has scores, which passes it.
    pub select_phase-eligible :
        (c : RerankConfig F) (signals : List (AssetSignal F)) (runner : Runner F S) (x : String)
        → member x (select_phase link c signals runner).bot.topk_selected ≡ true
        → (member x c.topk_exclude_from_selection ≡ false)
          × (can_enter
                (some (λ symbol. is_market_open symbol (now_of link runner.bot * 1000)))
                x
                signals
              ≡ true)
          × ((scores : Dict (ConsensusSignal F))
              → c.sentiment_gate_enabled ≡ true
              → runner.scores ≡ some scores
              → passes_gate
                  (Dict.lookup x (sentiments_of scores))
                  (Dict.lookup x (index_signals (λ (s : AssetSignal F). s.mean_return) signals []))
                  c.sentiment_gate_long_threshold
                  c.sentiment_gate_short_threshold
                ≡ true)
    unfolding select_phase rerank_select
    select_phase-eligible c signals runner x h =
        let is_open : Option (String → Bool) =
          some (λ symbol. is_market_open symbol (now_of link runner.bot * 1000)) in
        let exclude = c.topk_exclude_from_selection in
        let chosen = (rerank_select link c signals runner).1 in
        let found = can_enter-selectable is_open x exclude signals (
          select_top_k-eligible runner.strategy (selectable exclude signals) none is_open x
            (member-rerank_apply_sentiment_gate c runner.scores x chosen signals h)) in
        (
          ground (arith, found),
          ground (arith, found),
          λ scores on e.
              passes_gate-rerank c scores x chosen signals on
                (subst (λ s. member x (rerank_apply_sentiment_gate c s chosen signals) ≡ true) e h),
        )
