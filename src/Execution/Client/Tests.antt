-- ===== src/Execution/Client/Tests.antt =====
-- Runs of the client on scripted replies.
use async_trading_engine.Base.{ℕ, zero, suc, ◌<◌, ◌≡◌, refl, arith, some, [], ◌∷◌}
use async_trading_engine.Base.Fixed.{Fixed, fixed_float, whole}
use async_trading_engine.Core.Models.{ok, failed, closed_failure}
use async_trading_engine.Execution.Script.{Script, scripted, scripted_net, response, empty_payload}
use async_trading_engine.Execution.Http.{
  Net, outcome, handle_response, is_allowance_code, react, react_to_error,
}
use async_trading_engine.Execution.Http.Retry.{transmit, attempts, request}
use async_trading_engine.Execution.Client.{
  Body, Payload, read_confirmation, has_message, exchange_message, status_of, side_of,
}
use async_trading_engine.Execution.Client.Calls.{confirm_order}
use async_trading_engine.Execution.Client.Confirm.{query, IsLate, confirm_order-query}

abbrev accepted : Payload Fixed
accepted = record empty_payload {
  deal_status = some "ACCEPTED";
  deal_id = some "DIAAA";
  epic = some "CS.D.EURUSD.TODAY.IP";
  size = some (whole 2);
  level = some (whole 11_000);
}

-- IG does not know the deal at first.
abbrev lagging : Net (Script (Payload Fixed)) (Body Fixed) (Payload Fixed)
lagging =
    scripted_net
      (response 404 "error.confirms.deal-not-found" empty_payload ∷ response 200 "" accepted ∷ [])

once-IsLate : (j : ℕ) → j < 1 → IsLate scripted (query scripted "REF" j lagging).0
unfolding query request attempts transmit outcome handle_response is_allowance_code react
    react_to_error has_message exchange_message
once-IsLate zero h = (_, refl, refl)
once-IsLate (suc j) h = ground (arith, h)

answered_then : (query scripted "REF" 1 lagging).0 ≡ ok accepted
unfolding query request attempts transmit outcome handle_response is_allowance_code react
    react_to_error
answered_then = refl

late_confirmation :
    confirm_order scripted "REF" lagging
    ≡ (read_confirmation "REF" 388_800_000 accepted, (query scripted "REF" 1 lagging).1)
late_confirmation =
    confirm_order-query scripted "REF" 1 lagging (omega arith) once-IsLate accepted answered_then

-- A rejection because the market is closed is told apart.
closed_is_deferred :
    read_confirmation "REF" 5
      (record accepted { deal_status = some "REJECTED"; reason = some "MARKET_CLOSED_WITH_EDITS" })
    ≡ failed (closed_failure "IG market closed for REF: MARKET_CLOSED_WITH_EDITS")
unfolding read_confirmation status_of side_of
closed_is_deferred = refl
