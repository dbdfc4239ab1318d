-- ===== src/Execution/Context.antt =====
-- src/bot/core/bot_context.py and src/bot/core/event_wiring.py: the state that the parts of the bot
-- share, and what happens on a fill.
pub mod Openings
use async_trading_engine.Base.{
  ℕ, ◌*◌, Bool, true, Option, none, some, List, [], ◌∷◌, ◌++◌, String, if◌then◌else◌,
}
use async_trading_engine.Base.Float.{Float}
use async_trading_engine.Base.Dict
use async_trading_engine.Base.Dict.{Dict, same_key}
use async_trading_engine.Core.Models.{
  Result, ok, failed, Position, OrderResult, OrderSide, buy, sell, Message,
}
use async_trading_engine.Core.Wiring.{candle_for}
use async_trading_engine.Execution.Http.{Link, Net}
use async_trading_engine.Execution.Client.{Body, Payload, Balance}
use async_trading_engine.Execution.Client.Calls.{fetch_balance}
use async_trading_engine.Risk.Manager.State.{RiskManager}
use async_trading_engine.Risk.Manager.Equity.{update_equity}
use async_trading_engine.Risk.Manager.Positions.{on_fill, on_position_closed}
use async_trading_engine.Risk.SpreadMonitor.{SpreadMonitor}
use async_trading_engine.Strategy.TakeProfit.State.{TakeProfitManager, PathAttributes}
use async_trading_engine.Strategy.TopK.{AssetSignal}
use async_trading_engine.TradingHours.Schedule.{in_equity_mark_blackout}

-- `BotContext`, with the fields of `BotState` that entries and closes use. `alerts` and `outbox`
-- hold what was sent to the alerter and what the risk manager emitted; `latest_close` is what the
-- candle store has as the latest close of a symbol.
pub record Bot (F S : Type 0) : Type 0 where
  pub net : Net S (Body F) (Payload F)
  pub account_id : String
  pub risk_manager : RiskManager F
  pub spread_monitor : Option (SpreadMonitor F)
  pub tp_manager : Option (TakeProfitManager F)
  pub positions : Dict (Position F)
  pub cash : F
  pub open_pnl : F
  pub ig_deal_ids : Dict String
  pub candle_epic_map : Dict String
  pub epic_to_candle : Dict String
  pub topk_scanned : Bool
  pub topk_selected : List String
  pub topk_signals : List (AssetSignal F)
  pub path_signals : Dict (PathAttributes F)
  pub topk_min_stop_pct : F
  pub latest_close : Dict F
  pub alerted_orphan_deals : List String
  pub alerts : List String
  pub outbox : List (Message F)

-- `epic_for`
unfoldable pub epic_for : {F S : Type 0} → Bot F S → String → String
epic_for bot symbol = Dict.get_or symbol symbol bot.candle_epic_map

-- `next((s for s in signals if s.symbol == symbol), None)`
unfoldable pub find_signal : {F : Type 0} → String → List (AssetSignal F) → Option (AssetSignal F)
find_signal symbol [] = none
find_signal symbol (s ∷ rest) = if same_key s.symbol symbol then some s else find_signal symbol rest

module _ {F S : Type 0} ⦃d : Float F⦄ (link : Link S (Body F) (Payload F)) where
  open d use {zero, lt, sub, mul}

  -- The clock, which stands still between two requests.
  abbrev pub now_of : Bot F S → ℕ
  now_of bot = link.clock bot.net.world

  -- `refresh_balance`, in which an error of the request is raised.
  unfoldable pub refresh_balance : Bot F S → Result (Balance F) × Bot F S
  refresh_balance bot =
      let r = fetch_balance link bot.account_id bot.net in
      let asked = record bot { net = r.1 } in
      elim r.0 [
        | failed e ↦ (failed e, asked)
        | ok balance ↦
            let now = now_of asked in
            let (manager, sent) =
              update_equity (in_equity_mark_blackout (now * 1000)) true now asked.risk_manager
                balance.equity in
            (
              ok balance,
              record asked {
                risk_manager = manager;
                outbox = asked.outbox ++ sent;
                cash = balance.cash;
                open_pnl = balance.open_pnl;
              },
            )
      ]

  -- The profit or loss of a SELL fill of a position that the risk manager tracks.
  unfoldable pub pnl_for_event : RiskManager F → OrderResult F → Option F
  pnl_for_event m fill = elim (Dict.lookup fill.symbol m.open_positions) [
    | none ↦ none
    | some p ↦ some (mul (sub fill.average_price p.entry_price) fill.filled_quantity)
  ]

  -- `handle_position_closed`
  unfoldable pub handle_position_closed : String → F → Bot F S → Bot F S
  handle_position_closed symbol pnl bot =
      let (manager, sent) = on_position_closed true (now_of bot) bot.risk_manager symbol pnl in
      record bot { risk_manager = manager; outbox = bot.outbox ++ sent }

  -- `handle_order_filled` by the side of a fill with a quantity above zero.
  unfoldable pub book_fill : OrderSide → Option F → OrderResult F → Bot F S → Bot F S
  unfolding handle_position_closed
  book_fill buy pnl fill bot =
      let (manager, opened) = on_fill bot.risk_manager fill in
      record bot {
        risk_manager = manager;
        positions = elim opened [
          | none ↦ bot.positions
          | some p ↦ Dict.insert (candle_for bot.epic_to_candle fill.symbol) p bot.positions
        ];
      }
  book_fill sell pnl fill bot =
      let (manager, opened) = on_fill bot.risk_manager fill in
      let popped = record bot {
        risk_manager = manager;
        positions = Dict.erase (candle_for bot.epic_to_candle fill.symbol) bot.positions;
      } in
      elim pnl [ none ↦ popped | some pnl ↦ handle_position_closed fill.symbol pnl popped ]

  -- `handle_order_filled`, the handler of ORDER_FILLED; the trade alert is sent.
  unfoldable pub handle_order_filled : OrderResult F → Bot F S → Bot F S
  unfolding book_fill pnl_for_event
  handle_order_filled fill bot =
      let alerted = record bot { alerts = fill.symbol ∷ bot.alerts } in
      if lt zero fill.filled_quantity
      then book_fill fill.side (pnl_for_event bot.risk_manager fill) fill alerted
      else alerted
