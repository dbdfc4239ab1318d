-- ===== src/Strategy/Rerank/Dispatch/Held.antt =====
-- What a candle does while a position of its symbol is held.
use async_trading_engine.Base.{
  ◌∷◌, if◌then◌else◌, ◌≤◌, ◌≡◌, true, some, String, arith, inl, inr, Option-cases, ap,
}
use async_trading_engine.Base.Float.{Float}
use async_trading_engine.Base.Dict
use async_trading_engine.Core.Models.{Position}
use async_trading_engine.Data.Candles.{Candle}
use async_trading_engine.Data.Store.{DataStore}
use async_trading_engine.Execution.Http.{Link}
use async_trading_engine.Execution.Client.{Body, Payload}
use async_trading_engine.Execution.Client.Openings.{openings}
use async_trading_engine.Execution.Context.{Bot, now_of}
use async_trading_engine.Execution.Close.{close_ig_position}
use async_trading_engine.Execution.Close.Openings.{
  CloseResult-cases, net-forget_exit, openings-close_ig_position, openings-handle_close_failure,
  openings-request_close,
}
use async_trading_engine.Execution.Close.Reconcile.{request_close}
use async_trading_engine.Execution.QuoteScale.{ig_quote_scale}
use async_trading_engine.Risk.SpreadMonitor.{Statistics}
use async_trading_engine.Strategy.Rerank.Exits.{is_closed, close_for_exit}
use async_trading_engine.Strategy.Rerank.Dispatch.{
  stop_pct_of, loss_pct_of, stop_out, take_profit, handle_open_position, check_exit_and_entry,
  on_new_candle,
}
use async_trading_engine.Strategy.TakeProfit.Price.{evaluate_price}

module _ {F S : Type 0} ⦃d : Float F⦄ (link : Link S (Body F) (Payload F)) where
  open d use {le, mul}

  openings-stop_out :
      (symbol : String) (p : Position F) (bot : Bot F S)
      → openings (stop_out link symbol p bot).net ≤ openings bot.net
  unfolding stop_out
  openings-stop_out symbol p bot =
      let r = close_ig_position link symbol p bot in
      let few = openings-close_ig_position link symbol p bot in
      elim (CloseResult-cases link r.0) [
        | inl (fill, k) ↦ ground (arith, k, few, ap openings (net-forget_exit link symbol r.1))
        | inr (inl k) ↦ ground (arith, k, few, openings-handle_close_failure link symbol r.1)
        | inr (inr k) ↦ ground (arith, k, few)
      ]

  openings-take_profit :
      (symbol : String) (ig_current : F) (bot : Bot F S)
      → openings (take_profit link symbol ig_current bot).1.net ≤ openings bot.net
  unfolding take_profit close_for_exit
  openings-take_profit symbol ig_current bot = elim (Option-cases bot.tp_manager) [
    | inl h ↦ ground (arith, h)
    | inr (manager, h) ↦
        let judged = evaluate_price manager symbol ig_current (now_of link bot) in
        let after = record bot { tp_manager = some judged.0 } in
        elim (Option-cases judged.1) [
          | inl k ↦ ground (arith, h, k)
          | inr (decision, k) ↦ ground (arith, h, k, openings-request_close link symbol after)
        ]
  ]

  openings-handle_open_position :
      (symbol : String) (current_price : F) (p : Position F) (bot : Bot F S)
      → openings (handle_open_position link symbol current_price p bot).1.net ≤ openings bot.net
  unfolding handle_open_position
  openings-handle_open_position symbol current_price p bot =
      elim (Option-cases (loss_pct_of symbol current_price p)) [
        | inl h ↦ ground (arith, h)
        | inr (loss_pct, h) ↦ ground (
          arith,
          h,
          openings-stop_out symbol p bot,
          openings-take_profit symbol (mul current_price (ig_quote_scale symbol)) bot,
        )
      ]

  module _ (s : Statistics F) (peers : Bot F S → Bot F S) where
    -- A candle of a symbol whose position is held leads to no request that can open a position.
    pub openings-on_new_candle :
        (store : DataStore F) (candle : Candle F) (p : Position F) (bot : Bot F S)
        → Dict.lookup candle.symbol bot.positions ≡ some p
        → openings (on_new_candle link s peers store candle bot).1.net ≤ openings bot.net
    unfolding on_new_candle check_exit_and_entry
    openings-on_new_candle store candle p bot held =
        ground (arith, held, openings-handle_open_position candle.symbol candle.close p bot)

    -- A breach of the stop on a candle, on a position that is held and whose loss can be computed,
    -- raises nothing and does what a requested close does, whatever IG answers: the two leave the
    -- same bot, with the same alerts, but that a requested close which is filled also sends the
    -- alert of that close.
    pub check_exit_and_entry-stop :
        (symbol : String) (current_price loss_pct : F) (p : Position F) (bot : Bot F S)
        → Dict.lookup symbol bot.positions ≡ some p
        → loss_pct_of symbol current_price p ≡ some loss_pct
        → le (stop_pct_of symbol bot) loss_pct ≡ true
        → let (finished, stopped) =
            check_exit_and_entry link s peers symbol current_price (some p) bot in
          (finished ≡ true)
          × (request_close link symbol bot ≡ (
              if is_closed (close_ig_position link symbol p bot).0
              then record stopped { alerts = symbol ∷ stopped.alerts }
              else stopped))
    unfolding check_exit_and_entry handle_open_position stop_out request_close loss_pct_of
    check_exit_and_entry-stop symbol current_price loss_pct p bot held loss breach =
        let r = close_ig_position link symbol p bot in
        elim (CloseResult-cases link r.0) [
          | inl (fill, k) ↦ (ground (arith, loss, breach), ground (arith, held, loss, breach, k))
          | inr (inl k) ↦ (ground (arith, loss, breach), ground (arith, held, loss, breach, k))
          | inr (inr k) ↦ (ground (arith, loss, breach), ground (arith, held, loss, breach, k))
        ]
