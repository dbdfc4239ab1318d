-- ===== src/Execution/Entry/Books.antt =====
-- What the bot knows of a position after its entry.
use async_trading_engine.Base.{true, Option, some, ◌≡◌, arith, ◌∷◌, sym, if◌then◌else◌}
use mathlib.Core.Path.{subst}
use async_trading_engine.Base.Dict
use async_trading_engine.Base.Float.{Float}
use async_trading_engine.Core.Models.{Result, ok, failed, OrderResult, buy}
use async_trading_engine.Core.Wiring.{candle_for}
use async_trading_engine.Execution.Http.{Link, Net}
use async_trading_engine.Execution.Client.{Body, Payload, or_else}
use async_trading_engine.Execution.Context.{Bot, book_fill, handle_order_filled}
use async_trading_engine.Execution.Entry.{place_with_size_retry}
use async_trading_engine.Execution.Entry.Attempt.{
  Plan, register_entry, record_entry, send_entry_order,
}
use async_trading_engine.Risk.Budgets
use async_trading_engine.Risk.Manager.Positions.{set_risk_budget, position_of, fill_side, on_fill}
use async_trading_engine.Risk.SpreadMonitor.{Statistics}

module _ {F S : Type 0} ⦃d : Float F⦄ (s : Statistics F) (link : Link S (Body F) (Payload F)) where
  open d use {zero, lt, mul}

  -- The deal id, the position of the bot and of the risk manager, and the risk budget of an entry.
  abbrev pub IsBooked : Plan F → F → OrderResult F → F → Bot F S → Type 0
  IsBooked plan stop confirmed size bot =
      (Dict.lookup plan.symbol bot.ig_deal_ids ≡ some confirmed.order_id)
      × (Dict.lookup plan.symbol bot.positions ≡ some (position_of confirmed))
      × (Dict.lookup plan.epic bot.risk_manager.open_positions ≡ some (position_of confirmed))
      × (Dict.get_or plan.epic zero bot.risk_manager.budget_ledger.budgets
          ≡ (if lt (mul size stop) zero then zero else mul size stop))

  register_entry-IsBooked :
      (plan : Plan F) (price stop : F) (confirmed : OrderResult F) (size : F) (bot : Bot F S)
      → IsBooked plan stop confirmed size bot
      → IsBooked plan stop confirmed size (register_entry s link plan price bot)
  unfolding register_entry
  register_entry-IsBooked plan price stop confirmed size bot h = ground (arith, h)

  record_entry-IsBooked :
      (plan : Plan F) (stop : F) (confirmed : OrderResult F) (size : F) (bot : Bot F S)
      → plan.order.stop_distance ≡ some stop
      → confirmed.side ≡ buy
      → lt zero confirmed.filled_quantity ≡ true
      → confirmed.symbol ≡ plan.epic
      → candle_for bot.epic_to_candle plan.epic ≡ plan.symbol
      → IsBooked plan stop confirmed size (record_entry s link plan (confirmed, size) bot)
  unfolding record_entry handle_order_filled book_fill set_risk_budget on_fill fill_side Budgets.set
  record_entry-IsBooked plan stop confirmed size bot st side filled epic symbol =
      let budgeted = record bot {
        ig_deal_ids = Dict.insert plan.symbol confirmed.order_id bot.ig_deal_ids;
        risk_manager =
            set_risk_budget bot.risk_manager plan.epic
              (mul size (or_else plan.order.stop_distance zero));
      } in
      register_entry-IsBooked plan confirmed.average_price stop confirmed size
        (handle_order_filled link confirmed budgeted)
        (ground (
          arith,
          st,
          side,
          filled,
          epic,
          symbol,
          Dict.lookup-insert_self plan.symbol confirmed.order_id bot.ig_deal_ids,
          Dict.lookup-insert_self plan.symbol (position_of confirmed) bot.positions,
          Dict.lookup-insert_self plan.epic (position_of confirmed) bot.risk_manager.open_positions,
          Dict.lookup-insert_self plan.epic
              (if lt (mul size stop) zero then zero else mul size stop)
              bot.risk_manager.budget_ledger.budgets,
        ))

  -- When an order with a stop is confirmed as a BUY fill of its EPIC, with a filled quantity above
  -- zero, and the EPIC goes back to the symbol of the order, then the deal id and the position
  -- stand in the bot's state under the symbol, the position and a budget of the stake times the
  -- stop stand in the risk manager under the EPIC, and the budget is never below zero.
  pub send_entry_order-IsBooked :
      (plan : Plan F) (stop : F) (min_deal_size : Option F) (bot : Bot F S)
      (confirmed : OrderResult F) (size : F) (net : Net S (Body F) (Payload F))
      → place_with_size_retry link plan.order min_deal_size bot.net ≡ (ok (confirmed, size), net)
      → plan.order.stop_distance ≡ some stop
      → confirmed.side ≡ buy
      → lt zero confirmed.filled_quantity ≡ true
      → confirmed.symbol ≡ plan.epic
      → candle_for bot.epic_to_candle plan.epic ≡ plan.symbol
      → IsBooked plan stop confirmed size (send_entry_order s link plan min_deal_size bot)
  unfolding send_entry_order
  send_entry_order-IsBooked plan stop min_deal_size bot confirmed size net h st side filled epic
        symbol =
      subst
        (λ (placed : Result (OrderResult F × F) × Net S (Body F) (Payload F)).
          IsBooked plan stop confirmed size (elim placed.0 [
            | ok confirmed ↦ record_entry s link plan confirmed (record bot { net = placed.1 })
            | failed e ↦ record bot { net = placed.1; alerts = plan.symbol ∷ bot.alerts }
          ]))
        (sym h)
        (record_entry-IsBooked plan stop confirmed size (record bot { net = net }) st side filled
          epic symbol)
