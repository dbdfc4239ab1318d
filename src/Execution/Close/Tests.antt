-- ===== src/Execution/Close/Tests.antt =====
-- Runs of closes and reconciliations on scripted replies.
use async_trading_engine.Base.{
  ℕ, zero, suc, ◌<◌, ◌≡◌, refl, arith, true, none, some, [], ◌∷◌, if◌then◌else◌,
}
use mathlib.Core.Path.{subst}
use async_trading_engine.Base.Dict
use async_trading_engine.Base.Dict.{same_key_iff}
use async_trading_engine.Base.Fixed.{Fixed, fixed_float, whole}
use async_trading_engine.Core.Models.{
  Result, ok, failed, closed_failure, Position, OrderResult, buy, sell, filled, market,
}
use async_trading_engine.Core.Wiring.{candle_for}
use async_trading_engine.Execution.Script.{Script, scripted, response, empty_payload, scripted_bot}
use async_trading_engine.Execution.Http.{
  Net, outcome, handle_response, is_allowance_code, react, react_to_error,
}
use async_trading_engine.Execution.Http.Retry.{transmit, attempts, request}
use async_trading_engine.Execution.Client.{
  Body, Payload, RawPosition, close_request, has_message, exchange_message, read_confirmation,
  status_of, side_of,
}
use async_trading_engine.Execution.Client.Calls.{
  close_position, confirm_order, confirm_attempts, fetch_positions_raw,
}
use async_trading_engine.Execution.Client.Confirm.{query, IsLate}
use async_trading_engine.Execution.Context.{Bot, epic_for}
use async_trading_engine.Execution.Close.Reconcile.{
  epics_of, match_entries, match_entry, reconcile_matched, reseed_budget, discard, purge_stale,
  reconcile_positions_with_ig, request_close,
}
use async_trading_engine.Execution.Close.Sync.{has_epic, IsRoundTrip}
use async_trading_engine.Execution.Close.Kept.{reconcile_positions_with_ig-kept}
use async_trading_engine.Execution.Close.Outcomes.{
  IsForgotten, IsShut, request_close-deferred, request_close-IsForgotten,
}

abbrev pub position : Position Fixed
position = record {
  symbol = "CS.D.EURUSD.TODAY.IP";
  side = buy;
  entry_price = whole 11_000;
  quantity = whole 2;
  current_price = whole 11_000;
  unrealised_pnl = whole 0;
  realised_pnl = whole 0;
  opened_at = 1;
  updated_at = 1;
}

-- EUR/USD is held under the deal DIAAA.
abbrev holding : Script (Payload Fixed) → Bot Fixed (Script (Payload Fixed))
holding script = record (scripted_bot script) {
  positions = ("EUR/USD", position) ∷ [];
  ig_deal_ids = ("EUR/USD", "DIAAA") ∷ [];
}

abbrev placed : Payload Fixed
placed = record empty_payload { deal_reference = some "REF" }

abbrev not_now : Payload Fixed
not_now = record empty_payload {
  deal_status = some "REJECTED";
  reason = some "MARKET_CLOSED_WITH_EDITS";
}

abbrev accepted : Payload Fixed
accepted = record empty_payload {
  deal_status = some "ACCEPTED";
  deal_id = some "DIBBB";
  epic = some "CS.D.EURUSD.TODAY.IP";
  direction = some "SELL";
  size = some (whole 2);
  level = some (whole 11_050);
}

abbrev pub at_night : Bot Fixed (Script (Payload Fixed))
at_night = holding (response 200 "" placed ∷ response 200 "" not_now ∷ [])

abbrev pub by_day : Bot Fixed (Script (Payload Fixed))
by_day = holding (response 200 "" placed ∷ response 200 "" accepted ∷ [])

abbrev close_of :
    Bot Fixed (Script (Payload Fixed))
    → Result (OrderResult Fixed) × Net (Script (Payload Fixed)) (Body Fixed) (Payload Fixed)
close_of bot =
    close_position scripted (Dict.get_or "EUR/USD" "" bot.ig_deal_ids) sell position.quantity
      bot.net

abbrev fill : OrderResult Fixed
fill = record {
  order_id = "DIBBB";
  client_order_id = "REF";
  symbol = "CS.D.EURUSD.TODAY.IP";
  side = sell;
  order_type = market;
  status = filled;
  requested_quantity = whole 2;
  filled_quantity = whole 2;
  average_price = whole 11_050;
  timestamp = 388_800_000;
}

refused_at_night :
    (close_of at_night).0
    ≡ failed (closed_failure "IG market closed for REF: MARKET_CLOSED_WITH_EDITS")
unfolding close_position confirm_order confirm_attempts request attempts transmit outcome
    handle_response is_allowance_code read_confirmation status_of side_of Dict.lookup
refused_at_night = refl

filled_by_day : (close_of by_day).0 ≡ ok fill
unfolding close_position confirm_order confirm_attempts request attempts transmit outcome
    handle_response is_allowance_code read_confirmation status_of side_of Dict.lookup
filled_by_day = refl

-- IG takes the close of DIAAA, does not know the deal at first, and then rejects it.
abbrev late_at_night : Bot Fixed (Script (Payload Fixed))
late_at_night = holding (
    response 200 "" placed
    ∷ response 404 "error.confirms.deal-not-found" empty_payload
    ∷ response 200 "" not_now
    ∷ [])

abbrev acked : Net (Script (Payload Fixed)) (Body Fixed) (Payload Fixed)
acked = (request scripted (close_request "DIAAA" sell (whole 2)) late_at_night.net).1

taken_at_night :
    request scripted (close_request "DIAAA" sell (whole 2)) late_at_night.net ≡ (ok placed, acked)
unfolding request attempts transmit outcome handle_response is_allowance_code
taken_at_night = refl

unknown_at_first : (j : ℕ) → j < 1 → IsLate scripted (query scripted "REF" j acked).0
unfolding query request attempts transmit outcome handle_response is_allowance_code react
    react_to_error has_message exchange_message
unknown_at_first zero l = (_, refl, refl)
unknown_at_first (suc j) l = ground (arith, l)

not_now_at_night : (query scripted "REF" 1 acked).0 ≡ ok not_now
unfolding query request attempts transmit outcome handle_response is_allowance_code react
    react_to_error
not_now_at_night = refl

not_now-IsShut : IsShut scripted not_now
unfolding status_of
not_now-IsShut = (refl, refl)

request_close-deferred_example :
    request_close scripted "EUR/USD" late_at_night
    ≡ record late_at_night { net = (query scripted "REF" 1 acked).1 }
unfolding Dict.lookup
request_close-deferred_example =
    request_close-deferred scripted late_at_night "EUR/USD" position placed acked 1 not_now refl
      refl taken_at_night refl (omega arith) unknown_at_first not_now_at_night not_now-IsShut

request_close-IsForgotten_example :
    IsForgotten scripted "EUR/USD" "CS.D.EURUSD.TODAY.IP" (request_close scripted "EUR/USD" by_day)
unfolding Dict.lookup candle_for
request_close-IsForgotten_example =
    request_close-IsForgotten scripted by_day "EUR/USD" position fill (close_of by_day).1 refl refl
      (ground (arith, filled_by_day)) refl refl refl

abbrev reported : RawPosition Fixed
reported = record {
  epic = "CS.D.EURUSD.TODAY.IP";
  deal_id = "DICCC";
  size = some (whole 2);
  level = some (whole 11_000);
  stop_level = some (whole 10_900);
}

abbrev listed : Bot Fixed (Script (Payload Fixed))
listed = holding (response 200 "" (record empty_payload { positions = reported ∷ [] }) ∷ [])

listed-IsRoundTrip : IsRoundTrip listed listed.positions
unfolding Dict.lookup candle_for epic_for
listed-IsRoundTrip symbol h =
    let e : "EUR/USD" ≡ symbol = ground (arith, h, same_key_iff "EUR/USD" symbol) in
    subst (λ s. candle_for listed.epic_to_candle (epic_for listed s) ≡ s) e refl

listed_positions : (fetch_positions_raw scripted listed.net).0 ≡ ok (reported ∷ [])
unfolding fetch_positions_raw request attempts transmit outcome handle_response is_allowance_code
listed_positions = refl

reconciled : (reconcile_positions_with_ig scripted listed).0 ≡ true
unfolding reconcile_positions_with_ig fetch_positions_raw request attempts transmit outcome
    handle_response is_allowance_code match_entries match_entry epics_of epic_for candle_for
    Dict.lookup purge_stale discard reconcile_matched reseed_budget
reconciled = refl

abbrev after : Bot Fixed (Script (Payload Fixed))
after = (reconcile_positions_with_ig scripted listed).1

reconcile_positions_with_ig-kept_example :
    Dict.lookup "EUR/USD" after.positions
    ≡ (if has_epic (epic_for listed "EUR/USD") (reported ∷ []) then some position else none)
unfolding Dict.lookup
reconcile_positions_with_ig-kept_example =
    reconcile_positions_with_ig-kept scripted listed after (reported ∷ []) "EUR/USD" position
      listed-IsRoundTrip listed_positions (ground (arith, reconciled)) refl
