-- ===== src/Execution/Client/Calls.antt =====
-- The calls of `IGClient` that send requests.
use async_trading_engine.Base.{
  ℕ, zero, suc, true, false, Option, none, some, String, List, if◌then◌else◌, leb,
}
use async_trading_engine.Base.Float.{Float}
use async_trading_engine.Base.Dict.{same_key}
use async_trading_engine.Core.Models.{
  Failure, exchange_failure, exchange_error, closed_failure, other_failure, Result, ok, failed,
  OrderRequest, OrderResult, OrderSide,
}
use async_trading_engine.Execution.Http.{Link, Net}
use async_trading_engine.Execution.Http.Retry.{request}
use async_trading_engine.Execution.Client.{
  Body, get_request, place_request, close_request, Payload, RawPosition, Transaction,
  find_transaction, Balance, find_balance, or_else, has_message, exchange_message,
  read_confirmation, pending_result,
}
use Prim.Native.String.{◌++◌ as ◌<>◌}

module _ {F : Type 0} ⦃d : Float F⦄ where
  module _ {S : Type 0} (link : Link S (Body F) (Payload F)) where
    open link use {clock}

    -- What a call returns or raises, with the connection after it.
    abbrev pub Outcome : Type 0 → Type 0
    Outcome A = Result A × Net S (Body F) (Payload F)

    unfoldable pub place_order :
        OrderRequest F → Net S (Body F) (Payload F) → Outcome (OrderResult F)
    unfolding pending_result
    place_order order net =
        let r = request link (place_request order) net in
        elim r.0 [
          | ok payload ↦ (ok (pending_result order (clock r.1.world) payload), r.1)
          | failed e ↦ (failed e, r.1)
        ]

    -- The attempts of `confirm_order`, with `n` to go; the sleeps between them are left out.
    unfoldable pub confirm_attempts :
        ℕ → Failure → String → Net S (Body F) (Payload F) → Outcome (Payload F)
    unfolding has_message exchange_message
    confirm_attempts zero last reference net = (failed last, net)
    confirm_attempts (suc n) last reference net =
        let r = request link (get_request ("/confirms/" <> reference)) net in
        elim r.0 [
          | ok payload ↦ (ok payload, r.1)
          | failed e ↦ elim (has_message "deal-not-found" e) [
            | true ↦ confirm_attempts n e reference r.1
            | false ↦ (failed e, r.1)
          ]
        ]

    -- `len(_CONFIRM_RETRY_DELAYS_S) + 1` attempts.
    unfoldable pub confirm_order : String → Net S (Body F) (Payload F) → Outcome (OrderResult F)
    unfolding read_confirmation
    confirm_order reference net =
        let r = confirm_attempts 4 other_failure reference net in
        elim r.0 [
          | ok payload ↦ (read_confirmation reference (clock r.1.world) payload, r.1)
          | failed e ↦ (failed e, r.1)
        ]

    -- `fetch_balance` of the client with the account id.
    unfoldable pub fetch_balance : String → Net S (Body F) (Payload F) → Outcome (Balance F)
    unfolding find_balance
    fetch_balance account_id net =
        let r = request link (get_request "/accounts") net in
        elim r.0 [
          | ok payload ↦ (
            elim (find_balance account_id payload.accounts) [
              | none ↦ failed (
                  exchange_failure exchange_error
                    ("Account " <> account_id <> " not found in /accounts response"))
              | some balance ↦ ok balance
            ],
            r.1,
          )
          | failed e ↦ (failed e, r.1)
        ]

    -- `require_tradeable`: the smallest stake that IG accepts, if it is known.
    unfoldable pub require_tradeable : String → Net S (Body F) (Payload F) → Outcome (Option F)
    require_tradeable epic net =
        let r = request link (get_request ("/markets/" <> epic)) net in
        elim r.0 [
          | ok payload ↦ (
            (let status = or_else payload.market_status "" in
                if same_key status "TRADEABLE"
                then ok payload.min_deal_size
                else failed (
                    closed_failure (
                      "IG market "
                      <> epic
                      <> " not tradeable: marketStatus="
                      <> (if same_key status "" then "UNKNOWN" else status)))),
            r.1,
          )
          | failed e ↦ (failed e, r.1)
        ]

    -- `close_position`; without a deal reference it raises a `RuntimeError`.
    unfoldable pub close_position :
        String → OrderSide → F → Net S (Body F) (Payload F) → Outcome (OrderResult F)
    close_position deal_id direction size net =
        let r = request link (close_request deal_id direction size) net in
        elim r.0 [
          | ok payload ↦
              let deal_ref = or_else payload.deal_reference "" in
              elim (same_key deal_ref "") [
                | true ↦ (failed other_failure, r.1)
                | false ↦ confirm_order deal_ref r.1
              ]
          | failed e ↦ (failed e, r.1)
        ]

    -- `fetch_positions_raw`
    unfoldable pub fetch_positions_raw : Net S (Body F) (Payload F) → Outcome (List (RawPosition F))
    fetch_positions_raw net =
        let r = request link (get_request "/positions") net in
        elim r.0 [ ok payload ↦ (ok payload.positions, r.1) | failed e ↦ (failed e, r.1) ]

    -- `fetch_closed_transaction`, without a name to look for; the times in the path are left out.
    unfoldable pub fetch_closed_transaction :
        ℕ → Net S (Body F) (Payload F) → Option (Transaction F) × Net S (Body F) (Payload F)
    unfolding find_transaction
    fetch_closed_transaction opened_at_ms net =
        let r = request link (get_request "/history/transactions") net in
        if leb opened_at_ms 0 then (none, net) else elim r.0 [
          | ok payload ↦ (find_transaction opened_at_ms payload.transactions, r.1)
          | failed e ↦ (none, r.1)
        ]
