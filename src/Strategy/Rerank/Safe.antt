-- ===== src/Strategy/Rerank/Safe.antt =====
-- A rerank only closes positions.
use async_trading_engine.Base.{
  ℕ, ◌+◌, ◌≤◌, some, List, [], ◌∷◌, String, arith, inl, inr, Bool-cases, Option-cases,
}
use async_trading_engine.Base.Float.{Float}
use async_trading_engine.Base.Dict
use async_trading_engine.Base.Dict.{Dict}
use async_trading_engine.Execution.Http.{Link}
use async_trading_engine.Execution.Client.{Body, Payload}
use async_trading_engine.Execution.Client.Calls.{fetch_positions_raw}
use async_trading_engine.Execution.Client.Openings.{openings}
use async_trading_engine.Execution.Context.{Bot}
use async_trading_engine.Execution.Context.Openings.{openings-refresh_balance}
use async_trading_engine.Execution.Close.Openings.{
  openings-fetch_positions_raw, openings-reconcile_positions_with_ig, openings-request_close,
}
use async_trading_engine.Sentiment.{ConsensusSignal}
use async_trading_engine.Strategy.Rerank.{RerankConfig, Runner, index_signals, select_phase}
use async_trading_engine.Strategy.Rerank.Exits.{
  held_symbols, reversal_scores, close_for_exit, reversal_exit, in_topk, decay_exit, decay_exits,
  rerank_run_decay_exits,
}
use async_trading_engine.Strategy.Rerank.Pass.{
  rerank_send_alert, finish_rerank, rerank_reconcile, run_rerank_once,
}
use async_trading_engine.Strategy.TakeProfit.State.{TakeProfitManager}
use async_trading_engine.Strategy.TakeProfit.Signal.{evaluate_signal}
use async_trading_engine.Strategy.TopK.{AssetSignal, attributes_of}

module _ {F S : Type 0} ⦃d : Float F⦄ (link : Link S (Body F) (Payload F)) where
  openings-close_for_exit :
      (symbol : String) (bot : Bot F S)
      → openings (close_for_exit link symbol bot).1.net ≤ openings bot.net
  unfolding close_for_exit
  openings-close_for_exit symbol bot = openings-request_close link symbol bot

  openings-reversal_exit :
      (c : RerankConfig F) (scores : Dict (ConsensusSignal F)) (symbol : String)
      (manager : TakeProfitManager F) (bot : Bot F S)
      → openings (reversal_exit link c scores symbol manager bot).1.net ≤ openings bot.net
  unfolding reversal_exit
  openings-reversal_exit c scores symbol manager bot =
      elim (Option-cases (Dict.lookup symbol scores)) [
        | inl h ↦ ground (arith, h)
        | inr (s, h) ↦ ground (arith, h, openings-close_for_exit symbol bot)
      ]

  openings-decay_exit :
      (c : RerankConfig F) (scores : Dict (ConsensusSignal F)) (signals : List (AssetSignal F))
      (symbol : String) (bot : Bot F S)
      → openings (decay_exit link c scores signals symbol bot).1.net ≤ openings bot.net
  unfolding decay_exit
  openings-decay_exit c scores signals symbol bot = elim (Option-cases bot.tp_manager) [
    | inl h ↦ ground (arith, h)
    | inr (manager, h) ↦
        let judged =
          evaluate_signal manager symbol
            (Dict.lookup symbol (index_signals attributes_of signals []))
            (in_topk link symbol bot) in
        let after = record bot { tp_manager = some judged.0 } in
        ground (
          arith,
          h,
          openings-close_for_exit symbol after,
          openings-reversal_exit c scores symbol judged.0 after,
        )
  ]

  openings-decay_exits :
      (c : RerankConfig F) (scores : Dict (ConsensusSignal F)) (signals : List (AssetSignal F))
      (symbols : List String) (bot : Bot F S)
      → openings (decay_exits link c scores signals symbols bot).1.net ≤ openings bot.net
  unfolding decay_exits
  openings-decay_exits c scores signals [] bot = omega arith
  openings-decay_exits c scores signals (symbol ∷ rest) bot =
      let r = decay_exit link c scores signals symbol bot in
      let few = openings-decay_exit c scores signals symbol bot in
      elim (Bool-cases r.0) [
        | inl h ↦ ground (arith, h, few, openings-decay_exits c scores signals rest r.1)
        | inr h ↦ ground (arith, h, few)
      ]

  module _ (sum : List F → F) where
    openings-rerank_send_alert :
        (runner : Runner F S)
        → openings (rerank_send_alert link sum runner).bot.net ≤ openings runner.bot.net
    unfolding rerank_send_alert
    openings-rerank_send_alert runner =
        let asked = fetch_positions_raw link runner.bot.net in
        omega (
          arith,
          openings-fetch_positions_raw link runner.bot.net,
          openings-refresh_balance link (record runner.bot { net = asked.1 }),
        )

    openings-finish_rerank :
        (c : RerankConfig F) (signals : List (AssetSignal F)) (runner : Runner F S)
        → openings (finish_rerank link sum c signals runner).runner.bot.net
          ≤ openings runner.bot.net
    unfolding finish_rerank rerank_run_decay_exits select_phase
    openings-finish_rerank c signals runner =
        let selected = select_phase link c signals runner in
        let exits = rerank_run_decay_exits link c signals selected in
        let few =
          openings-decay_exits c (reversal_scores c runner.scores) signals
            (held_symbols selected.bot) selected.bot in
        elim (Bool-cases exits.0) [
          | inl h ↦ ground (arith, h, few, openings-rerank_send_alert exits.1)
          | inr h ↦ ground (arith, h, few)
        ]

    -- A pass of the rerank sends no request that can open a position, apart from what other tasks
    -- send while the model scans.
    pub openings-run_rerank_once :
        (scan : Runner F S → List (AssetSignal F) × Runner F S) (c : RerankConfig F)
        (runner : Runner F S) (others : ℕ)
        → ((r : Runner F S) → openings (scan r).1.bot.net ≤ others + openings r.bot.net)
        → openings (run_rerank_once link sum scan c runner).runner.bot.net
          ≤ others + openings runner.bot.net
    unfolding run_rerank_once rerank_reconcile
    openings-run_rerank_once scan c runner others h =
        let reconciled = rerank_reconcile link sum runner in
        let scanned = scan reconciled in
        omega (
          arith,
          openings-reconcile_positions_with_ig link runner.bot,
          h reconciled,
          openings-finish_rerank c scanned.0 scanned.1,
        )
