-- ===== src/Execution/Context/Openings.antt =====
-- Refreshing the balance opens no position, and a fill sends no request.
use async_trading_engine.Base.{◌≤◌, ◌≡◌, refl, Option, none, some, arith, inl, inr, ◌∷◌, Bool-cases}
use async_trading_engine.Base.Float.{Float}
use async_trading_engine.Core.Models.{OrderSide, buy, sell, OrderResult}
use async_trading_engine.Execution.Http.{Link}
use async_trading_engine.Execution.Http.Once.{Result-cases}
use async_trading_engine.Execution.Client.{Body, Payload}
use async_trading_engine.Execution.Client.Calls.{fetch_balance}
use async_trading_engine.Execution.Client.Openings.{openings, openings-fetch_balance}
use async_trading_engine.Execution.Context.{
  Bot, refresh_balance, handle_order_filled, book_fill, handle_position_closed, pnl_for_event,
}

module _ {F S : Type 0} ⦃d : Float F⦄ (link : Link S (Body F) (Payload F)) where
  open d use {zero, lt}

  pub openings-refresh_balance :
      (bot : Bot F S) → openings (refresh_balance link bot).1.net ≤ openings bot.net
  unfolding refresh_balance
  openings-refresh_balance bot = elim (Result-cases (fetch_balance link bot.account_id bot.net).0) [
    | inl (balance, h) ↦ ground (arith, h, openings-fetch_balance link bot.account_id bot.net)
    | inr (e, h) ↦ ground (arith, h, openings-fetch_balance link bot.account_id bot.net)
  ]

  net-book_fill :
      (side : OrderSide) (pnl : Option F) (fill : OrderResult F) (bot : Bot F S)
      → (book_fill link side pnl fill bot).net ≡ bot.net
  unfolding book_fill handle_position_closed
  net-book_fill buy pnl fill bot = refl
  net-book_fill sell none fill bot = refl
  net-book_fill sell (some pnl) fill bot = refl

  pub net-handle_order_filled :
      (fill : OrderResult F) (bot : Bot F S) → (handle_order_filled link fill bot).net ≡ bot.net
  unfolding handle_order_filled
  net-handle_order_filled fill bot = elim (Bool-cases (lt zero fill.filled_quantity)) [
    | inl h ↦ ground (
      arith,
      h,
      net-book_fill fill.side (pnl_for_event link bot.risk_manager fill) fill
          (record bot { alerts = fill.symbol ∷ bot.alerts }),
    )
    | inr h ↦ ground (arith, h)
  ]
