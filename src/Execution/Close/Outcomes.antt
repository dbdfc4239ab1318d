-- ===== src/Execution/Close/Outcomes.antt =====
-- What a requested close leaves, by what IG answers.
use async_trading_engine.Base.{
  ℕ, ◌<◌, ◌||◌, true, false, Option, none, some, ◌∷◌, String, ◌≡◌, inl, inr, refl, ap, ◌∙◌, arith,
  Option-cases,
}
use async_trading_engine.Base.Float.{Float}
use Prim.Native.String.{◌++◌ as ◌<>◌}
use async_trading_engine.Base.Dict
use async_trading_engine.Base.Dict.{same_key}
use async_trading_engine.Core.Models.{
  ok, failed, closed_failure, Position, OrderResult, sell, rejected,
}
use async_trading_engine.Core.Wiring.{candle_for}
use async_trading_engine.Data.Symbols.{has_piece}
use async_trading_engine.Execution.Http.{Link, Net}
use async_trading_engine.Execution.Http.Retry.{request}
use async_trading_engine.Execution.Client.{
  Body, Payload, or_else, close_request, status_of, read_confirmation,
}
use async_trading_engine.Execution.Client.Calls.{close_position}
use async_trading_engine.Execution.Client.Confirm.{query, IsLate, confirm_order-query}
use async_trading_engine.Execution.Context.{
  Bot, handle_order_filled, book_fill, handle_position_closed, pnl_for_event,
}
use async_trading_engine.Execution.Close.{close_error, forget_exit, close_ig_position}
use async_trading_engine.Execution.Close.Reconcile.{request_close}
use async_trading_engine.Risk.Manager.Positions.{on_fill, fill_side}
use async_trading_engine.Risk.Manager.Positions.Tracking.{lookup-on_position_closed}
use async_trading_engine.Strategy.TakeProfit.State.{TakeProfitManager, deregister_position}

module _ {F S : Type 0} ⦃d : Float F⦄ (link : Link S (Body F) (Payload F)) where
  open d use {zero, lt}

  request_close-closed_failure :
      (bot : Bot F S) (symbol message : String) (p : Position F) (net : Net S (Body F) (Payload F))
      → Dict.lookup symbol bot.positions ≡ some p
      → same_key (Dict.get_or symbol "" bot.ig_deal_ids) "" ≡ false
      → close_position link (Dict.get_or symbol "" bot.ig_deal_ids) sell p.quantity bot.net
        ≡ (failed (closed_failure message), net)
      → request_close link symbol bot ≡ record bot { net = net }
  unfolding request_close close_ig_position close_error
  request_close-closed_failure bot symbol message p net held deal answer =
      ground (arith, held, deal, answer)

  -- The deal of the reply is rejected, with a reason that tells of a market that is shut.
  abbrev pub IsShut : Payload F → Type 0
  IsShut reply =
      let reason = or_else reply.reason "unknown" in
      (status_of (or_else reply.deal_status "REJECTED") ≡ rejected)
      × ((has_piece "MARKET_CLOSED" reason || has_piece "MARKET_OFFLINE" reason) ≡ true)

  read_confirmation-IsShut :
      (reference : String) (now : ℕ) (reply : Payload F)
      → IsShut reply
      → (message : String) × (read_confirmation reference now reply
          ≡ failed (closed_failure message))
  unfolding read_confirmation
  read_confirmation-IsShut reference now reply (status, reason) =
      let text : String =
        "IG market closed for " <> reference <> ": " <> or_else reply.reason "unknown" in
      (text, ground (arith, status, reason))

  -- When IG takes the close of a held position under a deal reference, does not know that deal for up
  -- to three queries, and rejects it at the next one because the market is closed or offline, then the
  -- close changes nothing of the bot but the connection, which stands after that query: no
  -- reconciliation is asked for, no alert is sent, and the position, its deal id, its exit rules and
  -- the risk manager stay for a retry.
  pub request_close-deferred :
      (bot : Bot F S) (symbol : String) (p : Position F) (ack : Payload F)
      (acked : Net S (Body F) (Payload F)) (k : ℕ) (reply : Payload F)
      → Dict.lookup symbol bot.positions ≡ some p
      → same_key (Dict.get_or symbol "" bot.ig_deal_ids) "" ≡ false
      → request link (close_request (Dict.get_or symbol "" bot.ig_deal_ids) sell p.quantity) bot.net
        ≡ (ok ack, acked)
      → same_key (or_else ack.deal_reference "") "" ≡ false
      → k < 4
      → ((j : ℕ) → j < k → IsLate link (query link (or_else ack.deal_reference "") j acked).0)
      → (query link (or_else ack.deal_reference "") k acked).0 ≡ ok reply
      → IsShut reply
      → request_close link symbol bot
        ≡ record bot { net = (query link (or_else ack.deal_reference "") k acked).1 }
  unfolding close_position
  request_close-deferred bot symbol p ack acked k reply held deal sent known lt late answered shut =
      let reference = or_else ack.deal_reference "" in
      let asked = query link reference k acked in
      let (message, refused) =
        read_confirmation-IsShut reference (link.clock asked.1.world) reply shut in
      request_close-closed_failure bot symbol message p asked.1 held deal (
        ground (
          arith,
          sent,
          known,
          confirm_order-query link reference k acked lt late reply answered,
          refused,
        ))

  -- Nothing is left of a position: not in the bot, nor in the risk manager, nor in the exit rules.
  abbrev pub IsForgotten : String → String → Bot F S → Type 0
  IsForgotten symbol epic bot =
      (Dict.lookup symbol bot.positions ≡ none)
      × (Dict.lookup symbol bot.ig_deal_ids ≡ none)
      × (Dict.lookup epic bot.risk_manager.open_positions ≡ none)
      × ((manager : TakeProfitManager F)
          → bot.tp_manager ≡ some manager
          → Dict.lookup symbol manager.positions ≡ none)

  forget_exit-IsForgotten :
      (symbol epic : String) (bot : Bot F S)
      → Dict.lookup symbol bot.positions ≡ none
      → Dict.lookup symbol bot.ig_deal_ids ≡ none
      → Dict.lookup epic bot.risk_manager.open_positions ≡ none
      → IsForgotten symbol epic (forget_exit symbol bot)
  unfolding forget_exit deregister_position
  forget_exit-IsForgotten symbol epic bot g i r = (
    ground (arith, g),
    ground (arith, i),
    ground (arith, r),
    λ manager h. elim (Option-cases bot.tp_manager) [
      | inl n ↦ ground (arith, h, n)
      | inr (old, n) ↦ ground (arith, h, n, Dict.lookup-erase_self symbol old.positions)
    ],
  )

  -- What a SELL fill leaves of its position.
  abbrev IsSold : String → OrderResult F → Bot F S → Bot F S → Type 0
  IsSold symbol fill before after =
      (Dict.lookup symbol after.positions ≡ none)
      × (after.ig_deal_ids ≡ before.ig_deal_ids)
      × (Dict.lookup fill.symbol after.risk_manager.open_positions ≡ none)

  book_fill-IsSold :
      (pnl : Option F) (bot : Bot F S) (symbol : String) (fill : OrderResult F)
      → fill.side ≡ sell
      → lt zero fill.filled_quantity ≡ true
      → candle_for bot.epic_to_candle fill.symbol ≡ symbol
      → IsSold symbol fill bot (book_fill link sell pnl fill bot)
  unfolding book_fill handle_position_closed on_fill fill_side
  book_fill-IsSold none bot symbol fill side filled back = (
    ground (arith, back, Dict.lookup-erase_self symbol bot.positions),
    refl,
    ground
        (arith, side, filled, Dict.lookup-erase_self fill.symbol bot.risk_manager.open_positions),
  )
  book_fill-IsSold (some pnl) bot symbol fill side filled back = (
    ground (arith, back, Dict.lookup-erase_self symbol bot.positions),
    refl,
    lookup-on_position_closed true _ _ fill.symbol pnl,
  )

  handle_order_filled-IsSold :
      (bot : Bot F S) (symbol : String) (fill : OrderResult F)
      → fill.side ≡ sell
      → lt zero fill.filled_quantity ≡ true
      → candle_for bot.epic_to_candle fill.symbol ≡ symbol
      → IsSold symbol fill bot (handle_order_filled link fill bot)
  unfolding handle_order_filled
  handle_order_filled-IsSold bot symbol fill side filled back = ground (
    arith,
    side,
    filled,
    book_fill-IsSold (pnl_for_event link bot.risk_manager fill)
        (record bot { alerts = fill.symbol ∷ bot.alerts }) symbol fill side filled back,
  )

  -- When IG confirms the close as a SELL fill, with a quantity, of an EPIC that goes back to the
  -- symbol, then the position, its deal id and its exit rules are gone from the bot, and the position
  -- of the EPIC from the risk manager.
  pub request_close-IsForgotten :
      (bot : Bot F S) (symbol : String) (p : Position F) (fill : OrderResult F)
      (net : Net S (Body F) (Payload F))
      → Dict.lookup symbol bot.positions ≡ some p
      → same_key (Dict.get_or symbol "" bot.ig_deal_ids) "" ≡ false
      → close_position link (Dict.get_or symbol "" bot.ig_deal_ids) sell p.quantity bot.net
        ≡ (ok fill, net)
      → fill.side ≡ sell
      → lt zero fill.filled_quantity ≡ true
      → candle_for bot.epic_to_candle fill.symbol ≡ symbol
      → IsForgotten symbol fill.symbol (request_close link symbol bot)
  unfolding request_close close_ig_position
  request_close-IsForgotten bot symbol p fill net held deal answer side filled back =
      let taken = record bot { net = net; ig_deal_ids = Dict.erase symbol bot.ig_deal_ids } in
      let sold = handle_order_filled link fill taken in
      let (g, i, r) = handle_order_filled-IsSold taken symbol fill side filled back in
      let forgotten =
        forget_exit-IsForgotten symbol fill.symbol sold g
          (ap (Dict.lookup symbol) i ∙ Dict.lookup-erase_self symbol bot.ig_deal_ids) r in
      (
        ground (arith, held, deal, answer, forgotten),
        ground (arith, held, deal, answer, forgotten),
        ground (arith, held, deal, answer, forgotten),
        λ manager h. ground (arith, held, deal, answer, h, forgotten.3 manager),
      )
