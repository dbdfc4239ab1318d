-- ===== src/Execution/Entry/Attempt.antt =====
-- The gates of an entry, in their order, and what a filled entry changes.
use async_trading_engine.Base.{
  ◌*◌, Bool, true, false, not, ◌&&◌, Option, none, some, ◌∷◌, String, is_some,
}
use async_trading_engine.Base.Float.{Float}
use async_trading_engine.Base.Dict
use async_trading_engine.Core.Models.{
  ok, failed, Failure, closed_failure, exchange_failure, connection_failure, other_failure,
  OrderRequest, order_request, OrderResult, buy,
}
use async_trading_engine.Data.Symbols.{member}
use async_trading_engine.Execution.Http.{Link}
use async_trading_engine.Execution.Client.{Body, Payload, Balance, or_else}
use async_trading_engine.Execution.Client.Calls.{require_tradeable}
use async_trading_engine.Execution.Context.{
  Bot, epic_for, find_signal, now_of, refresh_balance, handle_order_filled,
}
use async_trading_engine.Execution.Entry.{
  prepare_entry_order, is_below_minimum, place_with_size_retry,
}
use async_trading_engine.Execution.QuoteScale.{ig_quote_scale}
use async_trading_engine.Risk.IgMargin.{estimate_margin_gbp}
use async_trading_engine.Risk.Manager.State.{RiskManager, RiskDecision}
use async_trading_engine.Risk.Manager.Evaluate.{evaluate_ig_order}
use async_trading_engine.Risk.Manager.Positions.{set_risk_budget}
use async_trading_engine.Risk.SpreadMonitor.{Statistics, is_anomalous}
use async_trading_engine.Strategy.TakeProfit.State.{register_position}
use async_trading_engine.Strategy.TopK.{AssetSignal, attributes_of}
use async_trading_engine.TradingHours.Schedule.{is_safe_for_entry}

-- What an order that is about to be sent comes from.
pub record Plan (F : Type 0) : Type 0 where
  pub symbol : String
  pub epic : String
  pub order : OrderRequest F
  pub signal : Option (AssetSignal F)

module _ {F S : Type 0} ⦃d : Float F⦄ (s : Statistics F) (link : Link S (Body F) (Payload F)) where
  open d use {zero, le, mul}

  -- `topk_signal.stop_pct`, or the smallest stop of the configuration.
  unfoldable pub stop_of : Bot F S → Option (AssetSignal F) → F
  stop_of bot none = bot.topk_min_stop_pct
  stop_of bot (some signal) = signal.stop_pct

  -- `_check_margin_gate`: the decision of the risk manager on the proposed order.
  unfoldable pub check_margin_gate :
      String → F → Balance F → OrderRequest F → Bot F S → RiskManager F × RiskDecision F
  check_margin_gate symbol current_price balance proposed bot =
      let ig_level = mul current_price (ig_quote_scale symbol) in
      evaluate_ig_order bot.risk_manager proposed balance.margin balance.equity
        (estimate_margin_gbp symbol proposed.size ig_level) (now_of link bot) (now_of link bot)

  -- `_check_spread_anomaly`: whether the spread is no obstacle.
  unfoldable pub check_spread_anomaly : String → Bot F S → Bool
  check_spread_anomaly symbol bot = elim bot.spread_monitor [
    | none ↦ true
    | some monitor ↦ not (is_anomalous s symbol none monitor)
  ]

  -- The registration with the take-profit manager, with bars of an hour.
  unfoldable pub register_entry : Plan F → F → Bot F S → Bot F S
  register_entry plan fill_price bot = elim bot.tp_manager [
    | none ↦ bot
    | some manager ↦ elim plan.signal [
      | none ↦ bot
      | some signal ↦ record bot {
        tp_manager = some (
            register_position manager plan.symbol fill_price (attributes_of signal)
              (now_of link bot) (Dict.lookup plan.symbol bot.path_signals) 3_600_000);
      }
    ]
  ]

  -- What follows a confirmed order: the deal id, the risk budget, the fill event, the registration. A
  -- prepared order has a stop distance.
  unfoldable pub record_entry : Plan F → OrderResult F × F → Bot F S → Bot F S
  unfolding register_entry
  record_entry plan (confirmed, final_size) bot = register_entry plan confirmed.average_price (
      handle_order_filled link confirmed (record bot {
        ig_deal_ids = Dict.insert plan.symbol confirmed.order_id bot.ig_deal_ids;
        risk_manager =
            set_risk_budget bot.risk_manager plan.epic
              (mul final_size (or_else plan.order.stop_distance zero));
      }))

  abbrev alert : Plan F → Bot F S → Bot F S
  alert plan bot = record bot { alerts = plan.symbol ∷ bot.alerts }

  -- A market that is not tradeable is no error; other failures are sent to the alerter.
  unfoldable pub blocked_market : Plan F → Failure → Bot F S → Bot F S
  blocked_market plan (closed_failure message) bot = bot
  blocked_market plan (exchange_failure error_type message) bot = alert plan bot
  blocked_market plan connection_failure bot = alert plan bot
  blocked_market plan other_failure bot = alert plan bot

  unfoldable pub send_entry_order : Plan F → Option F → Bot F S → Bot F S
  unfolding record_entry
  send_entry_order plan min_deal_size bot =
      let placed = place_with_size_retry link plan.order min_deal_size bot.net in
      let after = record bot { net = placed.1 } in
      elim placed.0 [
        | ok confirmed ↦ record_entry plan confirmed after
        | failed e ↦ alert plan after
      ]

  -- `_execute_entry_order`
  unfoldable pub execute_entry_order : Plan F → Bot F S → Bot F S
  unfolding blocked_market send_entry_order
  execute_entry_order plan bot =
      let market = require_tradeable link plan.epic bot.net in
      let after = record bot { net = market.1 } in
      elim market.0 [
        | failed e ↦ blocked_market plan e after
        | ok min_deal_size ↦ elim (is_below_minimum plan.order.size min_deal_size) [
          | true ↦ after
          | false ↦ send_entry_order plan min_deal_size after
        ]
      ]

  -- From the proposed order on: the margin gate, the spread, the trade.
  unfoldable pub judge_entry :
      String → F → Option (AssetSignal F) → Balance F → OrderRequest F → Bot F S → Bot F S
  unfolding check_margin_gate check_spread_anomaly execute_entry_order
  judge_entry symbol current_price signal balance proposed bot =
      let judged = check_margin_gate symbol current_price balance proposed bot in
      let after = record bot { risk_manager = judged.0 } in
      let epic = epic_for bot symbol in
      elim judged.1.approved [
        | false ↦ after
        | true ↦ elim (check_spread_anomaly symbol after) [
          | false ↦ after
          | true ↦
              execute_entry_order
                (record {
                  symbol = symbol;
                  epic = epic;
                  order = order_request epic buy judged.1.adjusted_quantity proposed.stop_distance;
                  signal = signal;
                })
                after
        ]
      ]

  -- `_attempt_topk_entry`
  unfoldable pub attempt_topk_entry : String → F → Bot F S → Bot F S
  unfolding judge_entry stop_of
  attempt_topk_entry symbol current_price bot =
      let r = refresh_balance link bot in
      elim r.0 [
        | failed e ↦ r.1
        | ok balance ↦
            let signal = find_signal symbol r.1.topk_signals in
            let stop_pct = stop_of r.1 signal in
            elim (le stop_pct zero) [
              | true ↦ r.1
              | false ↦
                  elim (prepare_entry_order r.1.risk_manager symbol (epic_for r.1 symbol)
                    current_price balance.equity stop_pct) [
                      | none ↦ r.1
                      | some proposed ↦ judge_entry symbol current_price signal balance proposed r.1
                    ]
            ]
      ]

  -- `maybe_enter`: the check before the lock, and the check again under it.
  unfoldable pub maybe_enter : (Bot F S → Bot F S) → String → F → Bot F S → Bot F S
  unfolding attempt_topk_entry
  maybe_enter peers symbol current_price bot =
      elim (bot.topk_scanned
        && member symbol bot.topk_selected
        && is_safe_for_entry symbol (now_of link bot * 1000)) [
          | false ↦ bot
          | true ↦
              let locked = peers bot in
              elim (not (is_some (Dict.lookup symbol locked.positions))
                && member symbol locked.topk_selected) [
                  | false ↦ locked
                  | true ↦ attempt_topk_entry symbol current_price locked
                ]
        ]
