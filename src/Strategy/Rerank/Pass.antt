-- ===== src/Strategy/Rerank/Pass.antt =====
-- `_run_rerank_once` and `_rerank_send_alert` of src/bot/strategy/rerank_runner.py. The scan of the
-- model, with what other tasks do while it runs, is a parameter. Of the alert, only what it does to
-- the bot is modelled; the write of the correlations to the database is left out.
use async_trading_engine.Base.{Bool, true, false, List, ◌∷◌}
use async_trading_engine.Base.Float.{Float}
use async_trading_engine.Execution.Http.{Link}
use async_trading_engine.Execution.Client.{Body, Payload}
use async_trading_engine.Execution.Client.Calls.{fetch_positions_raw}
use async_trading_engine.Execution.Context.{now_of, refresh_balance}
use async_trading_engine.Execution.Close.Reconcile.{reconcile_positions_with_ig}
use async_trading_engine.Strategy.Rerank.{RerankConfig, Runner, select_phase}
use async_trading_engine.Strategy.Rerank.Exits.{rerank_run_decay_exits}
use async_trading_engine.Strategy.Rerank.History.{SignalHistoryRow, rerank_signal_history}
use async_trading_engine.Strategy.TopK.{AssetSignal}
use async_trading_engine.Strategy.TopK.Selection.{material_bumps_if_changed}

-- What a pass leaves: whether it came to its end, the rows that it wrote, and the new state.
pub record PassResult (F S : Type 0) : Type 0 where
  pub finished : Bool
  pub rows : List (SignalHistoryRow F)
  pub runner : Runner F S

module _ {F S : Type 0} ⦃d : Float F⦄ (link : Link S (Body F) (Payload F)) (sum : List F → F) where
  -- `_rerank_send_alert`; errors of its two requests are caught.
  unfoldable pub rerank_send_alert : Runner F S → Runner F S
  rerank_send_alert runner =
      let bot = runner.bot in
      let priced = record bot { net = (fetch_positions_raw link bot.net).1 } in
      let fresh = (refresh_balance link priced).1 in
      record runner {
        strategy = (material_bumps_if_changed runner.strategy).0;
        bot = record fresh { alerts = "topk_rerank" ∷ fresh.alerts };
      }

  -- The phases after the scan.
  unfoldable pub finish_rerank : RerankConfig F → List (AssetSignal F) → Runner F S → PassResult F S
  unfolding rerank_send_alert
  finish_rerank c signals runner =
      let rows = rerank_signal_history sum (now_of link runner.bot) signals runner in
      let exits = rerank_run_decay_exits link c signals (select_phase link c signals runner) in
      elim exits.0 [
        | true ↦ record { finished = true; rows = rows; runner = rerank_send_alert exits.1 }
        | false ↦ record { finished = false; rows = rows; runner = exits.1 }
      ]

  -- `_rerank_reconcile`
  unfoldable pub rerank_reconcile : Runner F S → Runner F S
  rerank_reconcile runner = record runner { bot = (reconcile_positions_with_ig link runner.bot).1 }

  -- `_run_rerank_once`
  unfoldable pub run_rerank_once :
      (Runner F S → List (AssetSignal F) × Runner F S)
      → RerankConfig F
      → Runner F S
      → PassResult F S
  unfolding finish_rerank rerank_reconcile
  run_rerank_once scan c runner =
      let (signals, scanned) = scan (rerank_reconcile runner) in finish_rerank c signals scanned
