-- ===== src/Strategy/Rerank/Dispatch.antt =====
-- The per-candle logic of src/bot/strategy/rerank_runner.py: `on_new_candle`, `check_exit_and_entry`
-- and `_handle_open_position`. A first component `false` is an exception.
pub mod Held
use async_trading_engine.Base.{
  ◌*◌, Bool, true, false, not, ◌||◌, Option, none, some, List, String, if◌then◌else◌, ltb, length,
}
use async_trading_engine.Base.Float.{Float, div?}
use async_trading_engine.Base.Dict
use async_trading_engine.Core.Models.{Position}
use async_trading_engine.Data.Candles.{Candle}
use async_trading_engine.Data.Store.{DataStore, get_candles}
use async_trading_engine.Execution.Http.{Link}
use async_trading_engine.Execution.Client.{Body, Payload}
use async_trading_engine.Execution.Context.{Bot, find_signal, now_of}
use async_trading_engine.Execution.Close.{
  closed_at, close_failed, deferred, forget_exit, close_ig_position,
}
use async_trading_engine.Execution.Close.Reconcile.{handle_close_failure}
use async_trading_engine.Execution.Entry.Attempt.{maybe_enter}
use async_trading_engine.Execution.QuoteScale.{ig_quote_scale}
use async_trading_engine.Risk.SpreadMonitor.{Statistics}
use async_trading_engine.Strategy.Rerank.Exits.{close_for_exit}
use async_trading_engine.Strategy.TakeProfit.Price.{evaluate_price}

module _ {F : Type 0} ⦃d : Float F⦄ where
  open d use {sub, mul}

  -- The loss of a position in parts of its entry price; `none` is a division by zero.
  unfoldable pub loss_pct_of : String → F → Position F → Option F
  loss_pct_of symbol current_price p =
      div? (sub p.entry_price (mul current_price (ig_quote_scale symbol))) p.entry_price

module _ {F S : Type 0} ⦃d : Float F⦄ where
  open d use {le, mul}

  -- The stop of the last scan, or the smallest stop.
  unfoldable pub stop_pct_of : String → Bot F S → F
  stop_pct_of symbol bot = elim (find_signal symbol bot.topk_signals) [
    | none ↦ bot.topk_min_stop_pct
    | some s ↦ s.stop_pct
  ]

  module _ (link : Link S (Body F) (Payload F)) where
    -- The close after a breach of the stop.
    unfoldable pub stop_out : String → Position F → Bot F S → Bot F S
    stop_out symbol p bot =
        let r = close_ig_position link symbol p bot in
        elim r.0 [
          | deferred ↦ r.1
          | close_failed ↦ handle_close_failure link symbol r.1
          | closed_at fill ↦ forget_exit symbol r.1
        ]

    -- The take-profit evaluation at a price of IG.
    unfoldable pub take_profit : String → F → Bot F S → Bool × Bot F S
    take_profit symbol ig_current bot = elim bot.tp_manager [
      | none ↦ (true, bot)
      | some manager ↦
          let judged = evaluate_price manager symbol ig_current (now_of link bot) in
          let after = record bot { tp_manager = some judged.0 } in
          elim judged.1 [
            | none ↦ (false, after)
            | some decision ↦
                if decision.should_exit then close_for_exit link symbol after else (true, after)
          ]
    ]

    -- `_handle_open_position`
    unfoldable pub handle_open_position : String → F → Position F → Bot F S → Bool × Bot F S
    unfolding stop_pct_of loss_pct_of stop_out take_profit
    handle_open_position symbol current_price p bot = elim (loss_pct_of symbol current_price p) [
      | none ↦ (false, bot)
      | some loss_pct ↦
          if le (stop_pct_of symbol bot) loss_pct
          then (true, stop_out symbol p bot)
          else take_profit symbol (mul current_price (ig_quote_scale symbol)) bot
    ]

    module _ (s : Statistics F) (peers : Bot F S → Bot F S) where
      -- `check_exit_and_entry`
      unfoldable pub check_exit_and_entry :
          String → F → Option (Position F) → Bot F S → Bool × Bot F S
      unfolding handle_open_position
      check_exit_and_entry symbol current_price none bot =
          (true, maybe_enter s link peers symbol current_price bot)
      check_exit_and_entry symbol current_price (some p) bot =
          handle_open_position symbol current_price p bot

      -- The subscriber of NEW_CANDLE with `on_new_candle`, for a bot with a strategy.
      unfoldable pub on_new_candle : DataStore F → Candle F → Bot F S → Bool × Bot F S
      unfolding check_exit_and_entry
      on_new_candle store candle bot =
          if not candle.is_confirmed || ltb (length (get_candles candle.symbol none store)) 2
          then (true, bot)
          else check_exit_and_entry candle.symbol candle.close
              (Dict.lookup candle.symbol bot.positions) bot
