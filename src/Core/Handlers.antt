-- ===== src/Core/Handlers.antt =====
-- src/bot/core/event_wiring.py: the subscriptions, and the handlers of account pushes, of the
-- margin breaker, of risk alerts and of the shutdown. Fills and closed positions are in
-- Execution/Context.
pub mod Margin
mod Tests
use async_trading_engine.Base.{ℕ, Bool, true, false, none, some, List, [], ◌∷◌, ◌++◌, String}
use async_trading_engine.Base.Float.{Float}
use async_trading_engine.Core.EventBus.{EventBus, subscribe}
use async_trading_engine.Core.Models.{
  AccountUpdate, MarginAction, halt_entries, close_worst, flatten, liquidation_alert,
  MarginBreakerEvent, Message, risk_alert, margin_breaker, shutdown,
}
use async_trading_engine.Execution.Http.{Link}
use async_trading_engine.Execution.Client.{Body, Payload}
use async_trading_engine.Execution.Context.{Bot, now_of}
use async_trading_engine.Execution.Close.{pick_worst_performer}
use async_trading_engine.Execution.Close.Reconcile.{request_close}
use async_trading_engine.Risk.Manager.Equity.{update_margin_state}
use async_trading_engine.Strategy.Rerank.Exits.{held_symbols, close_for_exit}

-- `wire`
unfoldable pub wire : EventBus → EventBus
wire bus = subscribe "margin_breaker" "handle_margin_breaker" (
    subscribe "account_update" "handle_account_update" (
      subscribe "shutdown" "handle_shutdown" (
        subscribe "risk_alert" "handle_risk_alert" (
          subscribe "position_closed" "handle_position_closed"
            (subscribe "order_filled" "handle_order_filled" bus)))))

-- The bot, with its shutdown event.
pub record Wired (F S : Type 0) : Type 0 where
  pub bot : Bot F S
  pub shutdown_event : Bool

module _ {F S : Type 0} ⦃d : Float F⦄ (link : Link S (Body F) (Payload F)) where
  -- `handle_account_update`, for a running event loop
  unfoldable pub handle_account_update : AccountUpdate F → Bot F S → Bot F S
  handle_account_update u bot =
      let (manager, sent) = update_margin_state true (now_of link bot) bot.risk_manager u in
      record bot { risk_manager = manager; outbox = bot.outbox ++ sent }

  -- The loop of a flatten, until a close raises.
  unfoldable pub flatten_all : List String → Bot F S → Bot F S
  flatten_all [] bot = bot
  flatten_all (symbol ∷ rest) bot =
      let r = close_for_exit link symbol bot in
      elim r.0 [ true ↦ flatten_all rest r.1 | false ↦ r.1 ]

  -- `handle_margin_breaker` by the action, after its alert.
  unfoldable pub act_on_margin : MarginAction → Bot F S → Bot F S
  unfolding flatten_all
  act_on_margin halt_entries bot = bot
  act_on_margin liquidation_alert bot = bot
  act_on_margin close_worst bot = elim (pick_worst_performer (held_symbols bot) bot) [
    | none ↦ bot
    | some worst ↦ request_close link worst bot
  ]
  act_on_margin flatten bot = flatten_all (held_symbols bot) bot

  unfoldable pub handle_margin_breaker : MarginBreakerEvent F → Bot F S → Bot F S
  unfolding act_on_margin
  handle_margin_breaker event bot =
      act_on_margin event.action (record bot { alerts = "margin_breaker" ∷ bot.alerts })

  -- The handler of a message that the risk manager sent.
  unfoldable pub handle_message : Message F → Wired F S → Wired F S
  unfolding handle_margin_breaker
  handle_message (risk_alert event) w = record w {
    bot = record w.bot { alerts = "risk_alert" ∷ w.bot.alerts };
  }
  handle_message (margin_breaker event) w = record w { bot = handle_margin_breaker event w.bot }
  handle_message (shutdown reason) w = record w { shutdown_event = true }

  -- The messages of an emission, each handled in turn.
  unfoldable pub handle_messages : List (Message F) → Wired F S → Wired F S
  unfolding handle_message
  handle_messages [] w = w
  handle_messages (message ∷ rest) w = handle_messages rest (handle_message message w)

  -- A push of the account, and the handling of all that is in the outbox.
  unfoldable pub account_push : AccountUpdate F → Wired F S → Wired F S
  unfolding handle_messages handle_account_update
  account_push u w =
      let pushed = handle_account_update u w.bot in
      handle_messages pushed.outbox (record w { bot = record pushed { outbox = [] } })
