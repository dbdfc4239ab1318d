-- ===== src/Execution/Client.antt =====
-- src/bot/execution/ig_client.py: orders, their confirmations and closes, over the requests of
-- ig_http.py. The decoded bodies that IG answers with are records of the fields that are read,
-- `none` where a field is absent.
pub mod Calls
pub mod Confirm
pub mod Openings
mod Tests
use async_trading_engine.Base.{
  ℕ, zero, suc, ◌+◌, eqb, ltb, Bool, true, false, ◌||◌, Option, none, some, List, [], ◌∷◌, String,
  if◌then◌else◌,
}
use async_trading_engine.Base.Float.{Float}
use async_trading_engine.Base.Dict.{same_key}
use async_trading_engine.Core.Models.{
  ErrorType, market_closed, invalid_order, Failure, exchange_failure, closed_failure,
  connection_failure, other_failure, Result, ok, failed, OrderRequest, OrderResult, OrderStatus,
  pending, filled, rejected, open_order, market, buy, sell, OrderSide,
}
use async_trading_engine.Data.Symbols.{has_piece}
use async_trading_engine.Execution.Http.{Verb, get, post, Request, Link, Net}
use async_trading_engine.Execution.Http.Retry.{request}
use Prim.Native.String.{◌++◌ as ◌<>◌}

-- What is posted: an order, or the close of a deal with its direction and size.
pub data Body (F : Type 0) : Type 0 where
  place_body : OrderRequest F → Body F
  close_body : String → OrderSide → F → Body F

-- An entry of `accounts` with its `balance` object.
pub record Account (F : Type 0) : Type 0 where
  pub account_id : String
  pub balance : Option F
  pub profit_loss : Option F
  pub equity : Option F
  pub available : Option F
  pub deposit : Option F
  pub margin : Option F

-- An entry of `positions`, its numbers as `safe_float` reads them: `none` is what it reads as 0.0.
pub record RawPosition (F : Type 0) : Type 0 where
  pub epic : String
  pub deal_id : String
  pub size : Option F
  pub level : Option F
  pub stop_level : Option F

-- An entry of `transactions`: when its position was opened, and its `closeLevel`.
pub record Transaction (F : Type 0) : Type 0 where
  pub open_ms : ℕ
  pub close_level : Option F

pub record Payload (F : Type 0) : Type 0 where
  pub deal_reference : Option String
  pub deal_status : Option String
  pub epic : Option String
  pub direction : Option String
  pub reason : Option String
  pub deal_id : Option String
  pub size : Option F
  pub level : Option F
  pub positions : List (RawPosition F)
  pub transactions : List (Transaction F)
  pub accounts : List (Account F)
  -- `snapshot.marketStatus`, in capitals
  pub market_status : Option String
  -- `dealingRules.minDealSize.value`
  pub min_deal_size : Option F

abbrev pub get_request : {F : Type 0} → String → Request (Body F)
get_request path = record { verb = get; path = path; body = none; idempotent = true }

-- `idempotent=False`: a lost answer must not be followed by a second order.
abbrev pub place_request : {F : Type 0} → OrderRequest F → Request (Body F)
place_request order = record {
  verb = post;
  path = "/positions/otc";
  body = some (place_body order);
  idempotent = false;
}

-- A POST with the override header that makes it a DELETE.
abbrev pub close_request : {F : Type 0} → String → OrderSide → F → Request (Body F)
close_request deal_id direction size = record {
  verb = post;
  path = "/positions/otc";
  body = some (close_body deal_id direction size);
  idempotent = true;
}

-- `data.get(key, default)`
abbrev pub or_else {ℓ} : {A : Type ℓ} → Option A → A → A
or_else none default = default
or_else (some a) default = a

-- `str(exc)` where `exc` is an `ExchangeError`
unfoldable pub exchange_message : Failure → Option String
exchange_message (exchange_failure error_type message) = some message
exchange_message (closed_failure message) = some message
exchange_message connection_failure = none
exchange_message other_failure = none

-- `except ExchangeError` with `piece in str(exc)`
unfoldable pub has_message : String → Failure → Bool
unfolding exchange_message
has_message piece e = elim (exchange_message e) [
  | none ↦ false
  | some message ↦ has_piece piece message
]

-- `status_map`
unfoldable pub status_of : String → OrderStatus
status_of deal_status =
    if same_key deal_status "ACCEPTED"
    then filled
    else if same_key deal_status "OPEN"
    then open_order
    else rejected

unfoldable pub side_of : String → OrderSide
side_of direction = if same_key direction "BUY" then buy else sell

-- What `fetch_balance` returns, less the available funds and the currency.
pub record Balance (F : Type 0) : Type 0 where
  pub equity : F
  pub cash : F
  pub open_pnl : F
  pub margin : F

-- The first transaction of a position opened within five seconds of the time.
unfoldable pub find_transaction : {F : Type 0} → ℕ → List (Transaction F) → Option (Transaction F)
find_transaction opened_at_ms [] = none
find_transaction opened_at_ms (t ∷ rest) =
    if eqb t.open_ms 0
    then find_transaction opened_at_ms rest
    else if ltb (opened_at_ms + 5000) t.open_ms || ltb (t.open_ms + 5000) opened_at_ms
    then find_transaction opened_at_ms rest
    else some t

module _ {F : Type 0} ⦃d : Float F⦄ where
  -- The balance of the account, if it is among the accounts.
  unfoldable pub find_balance : String → List (Account F) → Option (Balance F)
  find_balance account_id [] = none
  find_balance account_id (acc ∷ rest) =
      let cash = or_else acc.balance (Float.zero d) in
      let pnl = or_else acc.profit_loss (Float.zero d) in
      if same_key acc.account_id account_id
      then some (record {
        equity = or_else acc.equity (Float.add d cash pnl);
        cash = cash;
        open_pnl = pnl;
        margin = or_else acc.deposit (or_else acc.margin (Float.zero d));
      })
      else find_balance account_id rest

  -- The deal confirmation as an order result, or the error of a rejection.
  unfoldable pub read_confirmation : String → ℕ → Payload F → Result (OrderResult F)
  unfolding status_of side_of
  read_confirmation reference now payload =
      let reason = or_else payload.reason "unknown" in
      elim (status_of (or_else payload.deal_status "REJECTED")) [
        | rejected ↦ failed (
            if has_piece "MARKET_CLOSED" reason || has_piece "MARKET_OFFLINE" reason
            then closed_failure ("IG market closed for " <> reference <> ": " <> reason)
            else exchange_failure invalid_order
                ("IG rejected order " <> reference <> ": " <> reason))
        | status ↦ ok (record {
          order_id = or_else payload.deal_id reference;
          client_order_id = reference;
          symbol = or_else payload.epic "";
          side = side_of (or_else payload.direction "BUY");
          order_type = market;
          status = status;
          requested_quantity = or_else payload.size (Float.zero d);
          filled_quantity = or_else payload.size (Float.zero d);
          average_price = or_else payload.level (Float.zero d);
          timestamp = now;
        })
      ]

  -- The result of a placed order before it is confirmed.
  unfoldable pub pending_result : OrderRequest F → ℕ → Payload F → OrderResult F
  pending_result order now payload =
      let deal_ref = or_else payload.deal_reference "" in
      record {
        order_id = deal_ref;
        client_order_id =
            if same_key order.deal_reference "" then deal_ref else order.deal_reference;
        symbol = order.epic;
        side = order.direction;
        order_type = order.order_type;
        status = pending;
        requested_quantity = order.size;
        filled_quantity = Float.zero d;
        average_price = Float.zero d;
        timestamp = now;
      }
