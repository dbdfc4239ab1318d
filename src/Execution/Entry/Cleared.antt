-- ===== src/Execution/Entry/Cleared.antt =====
-- What holds when an entry sends an order.
use async_trading_engine.Base.{
  ◌+◌, ◌≤◌, true, false, Option, none, some, String, ◌≡◌, ◌⊎◌, inl, inr, refl, arith, ◌∙◌, ◌∷◌,
  Bool-cases,
}
use async_trading_engine.Base.Float.{Float}
use async_trading_engine.Core.Models.{
  Failure, ok, closed_failure, exchange_failure, connection_failure, other_failure, OrderRequest,
  order_request, OrderResult, OrderSide, buy, sell,
}
use async_trading_engine.Execution.Http.{Link}
use async_trading_engine.Execution.Http.Once.{Result-cases}
use async_trading_engine.Execution.Client.{Body, Payload, Balance}
use async_trading_engine.Execution.Client.Calls.{require_tradeable}
use async_trading_engine.Execution.Client.Openings.{openings, openings-require_tradeable}
use async_trading_engine.Execution.Context.{
  Bot, epic_for, book_fill, handle_position_closed, handle_order_filled, pnl_for_event,
}
use async_trading_engine.Execution.Entry.{is_below_minimum, place_with_size_retry}
use async_trading_engine.Execution.Entry.Attempt.{
  Plan, check_margin_gate, check_spread_anomaly, register_entry, record_entry, blocked_market,
  send_entry_order, execute_entry_order, judge_entry,
}
use async_trading_engine.Execution.Entry.Retry.{openings-place_with_size_retry}
use async_trading_engine.Risk.SpreadMonitor.{Statistics}
use async_trading_engine.Strategy.TopK.{AssetSignal}

module _ {F S : Type 0} ⦃d : Float F⦄ (s : Statistics F) (link : Link S (Body F) (Payload F)) where
  open d use {le}

  -- The market trades, and the stake is not below its minimum.
  abbrev pub IsTradeable : Plan F → Bot F S → Type 0
  IsTradeable plan bot =
      (min_deal_size : Option F) × ((require_tradeable link plan.epic bot.net).0 ≡ ok min_deal_size)
      × (is_below_minimum plan.order.size min_deal_size ≡ false)

  net-blocked_market :
      (plan : Plan F) (e : Failure) (bot : Bot F S)
      → (blocked_market s link plan e bot).net ≡ bot.net
  unfolding blocked_market
  net-blocked_market plan (exchange_failure error_type message) bot = refl
  net-blocked_market plan (closed_failure message) bot = refl
  net-blocked_market plan connection_failure bot = refl
  net-blocked_market plan other_failure bot = refl

  net-book_fill :
      (side : OrderSide) (pnl : Option F) (fill : OrderResult F) (bot : Bot F S)
      → (book_fill link side pnl fill bot).net ≡ bot.net
  unfolding book_fill handle_position_closed
  net-book_fill buy pnl fill bot = refl
  net-book_fill sell none fill bot = refl
  net-book_fill sell (some pnl) fill bot = refl

  net-handle_order_filled :
      (fill : OrderResult F) (bot : Bot F S) → (handle_order_filled link fill bot).net ≡ bot.net
  unfolding handle_order_filled
  net-handle_order_filled fill bot = ground (
    arith,
    net-book_fill fill.side (pnl_for_event link bot.risk_manager fill) fill
        (record bot { alerts = fill.symbol ∷ bot.alerts }),
  )

  net-register_entry :
      (plan : Plan F) (price : F) (bot : Bot F S)
      → (register_entry s link plan price bot).net ≡ bot.net
  unfolding register_entry
  net-register_entry plan price bot = ground arith

  net-record_entry :
      (plan : Plan F) (confirmed : OrderResult F) (size : F) (bot : Bot F S)
      → (record_entry s link plan (confirmed, size) bot).net ≡ bot.net
  unfolding record_entry
  net-record_entry plan confirmed size bot =
      net-register_entry plan confirmed.average_price _ ∙ net-handle_order_filled confirmed _

  openings-send_entry_order :
      (plan : Plan F) (min_deal_size : Option F) (bot : Bot F S)
      → openings (send_entry_order s link plan min_deal_size bot).net ≤ 2 + openings bot.net
  unfolding send_entry_order
  openings-send_entry_order plan min_deal_size bot =
      let placed = place_with_size_retry link plan.order min_deal_size bot.net in
      elim (Result-cases placed.0) [
        | inl ((confirmed, size), h) ↦ ground (
          arith,
          h,
          openings-place_with_size_retry link plan.order min_deal_size bot.net,
          net-record_entry plan confirmed size (record bot { net = placed.1 }),
        )
        | inr (e, h) ↦
            ground (arith, h, openings-place_with_size_retry link plan.order min_deal_size bot.net)
      ]

  openings-execute_entry_order :
      (plan : Plan F) (bot : Bot F S)
      → (openings (execute_entry_order s link plan bot).net ≤ openings bot.net)
        ⊎ (IsTradeable plan bot
            × (openings (execute_entry_order s link plan bot).net ≤ 2 + openings bot.net))
  unfolding execute_entry_order
  openings-execute_entry_order plan bot =
      let market = require_tradeable link plan.epic bot.net in
      let after = record bot { net = market.1 } in
      let asked = openings-require_tradeable link plan.epic bot.net in
      elim (Result-cases market.0) [
        | inr (e, h) ↦ inl (ground (arith, h, asked, net-blocked_market plan e after))
        | inl (min_deal_size, h) ↦
            elim (Bool-cases (is_below_minimum plan.order.size min_deal_size)) [
              | inl k ↦ inl (ground (arith, h, k, asked))
              | inr k ↦ inr (
                (min_deal_size, h, k),
                ground (arith, h, k, asked, openings-send_entry_order plan min_deal_size after),
              )
            ]
      ]

  -- The plan of an order that the risk manager approved.
  abbrev pub plan_of :
      String → F → Option (AssetSignal F) → Balance F → OrderRequest F → Bot F S → Plan F
  plan_of symbol current_price signal balance proposed bot = record {
    symbol = symbol;
    epic = epic_for bot symbol;
    order =
        order_request (epic_for bot symbol) buy
          (check_margin_gate s link symbol current_price balance proposed bot).1.adjusted_quantity
          proposed.stop_distance;
    signal = signal;
  }

  -- The manager approved the proposed order, the spread is no obstacle, and the market trades.
  abbrev pub IsApproved :
      String → F → Option (AssetSignal F) → Balance F → OrderRequest F → Bot F S → Type 0
  IsApproved symbol current_price signal balance proposed bot =
      let judged = check_margin_gate s link symbol current_price balance proposed bot in
      let after = record bot { risk_manager = judged.0 } in
      (judged.1.approved ≡ true)
      × (check_spread_anomaly s link symbol after ≡ true)
      × IsTradeable (plan_of symbol current_price signal balance proposed bot) after

  pub openings-judge_entry :
      (symbol : String) (current_price : F) (signal : Option (AssetSignal F)) (balance : Balance F)
      (proposed : OrderRequest F) (bot : Bot F S)
      → (openings (judge_entry s link symbol current_price signal balance proposed bot).net
          ≤ openings bot.net)
        ⊎ (IsApproved symbol current_price signal balance proposed bot
            × (openings (judge_entry s link symbol current_price signal balance proposed bot).net
                ≤ 2 + openings bot.net))
  unfolding judge_entry
  openings-judge_entry symbol current_price signal balance proposed bot =
      let judged = check_margin_gate s link symbol current_price balance proposed bot in
      let after = record bot { risk_manager = judged.0 } in
      elim (Bool-cases judged.1.approved) [
        | inr h ↦ inl (ground (arith, h))
        | inl h ↦ elim (Bool-cases (check_spread_anomaly s link symbol after)) [
          | inr k ↦ inl (ground (arith, h, k))
          | inl k ↦
              elim (openings-execute_entry_order
                (plan_of symbol current_price signal balance proposed bot) after) [
                  | inl few ↦ inl (ground (arith, h, k, few))
                  | inr (trades, few) ↦ inr ((h, k, trades), ground (arith, h, k, few))
                ]
        ]
      ]
