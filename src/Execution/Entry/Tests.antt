-- ===== src/Execution/Entry/Tests.antt =====
-- Runs of entries on scripted replies.
use async_trading_engine.Base.{◌+◌, ◌≤◌, ◌≡◌, ◌⊎◌, refl, arith, none, some, [], ◌∷◌}
use async_trading_engine.Base.Dict
use async_trading_engine.Core.Wiring.{candle_for}
use async_trading_engine.Base.Int.{pos}
use async_trading_engine.Base.Fixed.{Fixed, fixed_float, whole}
use async_trading_engine.Core.Models.{
  ok, OrderResult, OrderRequest, order_request, buy, filled, market,
}
use async_trading_engine.Execution.Script.{
  Script, scripted, response, empty_payload, scripted_bot, statistics,
}
use async_trading_engine.Execution.Http.{Net, outcome, handle_response, is_allowance_code}
use async_trading_engine.Execution.Http.Retry.{transmit, attempts, request}
use async_trading_engine.Execution.Client.{
  Body, Payload, read_confirmation, pending_result, has_message, exchange_message, status_of,
  side_of,
}
use async_trading_engine.Execution.Client.Calls.{place_order, confirm_order, confirm_attempts}
use async_trading_engine.Execution.Client.Openings.{openings}
use async_trading_engine.Execution.Context.{Bot}
use async_trading_engine.Execution.Entry.{
  snap_size_up_to_grid, grid_above, place_and_confirm, retry_snapped, place_with_size_retry,
}
use async_trading_engine.Execution.Entry.Attempt.{Plan, send_entry_order, maybe_enter}
use async_trading_engine.Execution.Entry.Retry.{IsRefusedStake, openings-place_with_size_retry}
use async_trading_engine.Execution.Entry.Permit.{IsWanted, IsPermitted, maybe_enter-IsPermitted}
use async_trading_engine.Execution.Entry.Books.{IsBooked, send_entry_order-IsBooked}

-- 0.28 goes up to 0.3, and 0.3 stays.
snapped :
    (snap_size_up_to_grid (pos 2800) none ≡ pos 3000)
    × (snap_size_up_to_grid (pos 3000) none ≡ pos 3000)
unfolding snap_size_up_to_grid grid_above
snapped = (refl, refl)

abbrev order : OrderRequest Fixed
order = order_request "CS.D.EURUSD.TODAY.IP" buy (pos 2800) (some (whole 55))

abbrev placed : Payload Fixed
placed = record empty_payload { deal_reference = some "REF" }

abbrev refused : Payload Fixed
refused = record empty_payload { deal_status = some "REJECTED"; reason = some "SIZE_INCREMENT" }

abbrev accepted : Payload Fixed
accepted = record empty_payload {
  deal_status = some "ACCEPTED";
  deal_id = some "DIAAA";
  epic = some "CS.D.EURUSD.TODAY.IP";
  size = some (pos 3000);
  level = some (whole 11_000);
}

-- The stake is refused, and the stake on the grid is accepted.
abbrev script : Script (Payload Fixed)
script =
    response 200 "" placed
    ∷ response 200 "" refused
    ∷ response 200 "" placed
    ∷ response 200 "" accepted
    ∷ []

abbrev bot : Bot Fixed (Script (Payload Fixed))
bot = scripted_bot script

abbrev confirmed : OrderResult Fixed
confirmed = record {
  order_id = "DIAAA";
  client_order_id = "REF";
  symbol = "CS.D.EURUSD.TODAY.IP";
  side = buy;
  order_type = market;
  status = filled;
  requested_quantity = pos 3000;
  filled_quantity = pos 3000;
  average_price = whole 11_000;
  timestamp = 388_800_000;
}

retried : (place_with_size_retry scripted order none bot.net).0 ≡ ok (confirmed, pos 3000)
unfolding place_with_size_retry place_and_confirm retry_snapped snap_size_up_to_grid grid_above
    place_order confirm_order confirm_attempts pending_result read_confirmation request attempts
    transmit outcome handle_response is_allowance_code has_message exchange_message status_of
    side_of
retried = refl

openings-place_with_size_retry_example :
    (openings (place_with_size_retry scripted order none bot.net).1 ≤ 1 + openings bot.net)
    ⊎ (IsRefusedStake scripted order none bot.net
        × (openings (place_with_size_retry scripted order none bot.net).1 ≤ 2 + openings bot.net))
openings-place_with_size_retry_example = openings-place_with_size_retry scripted order none bot.net

abbrev plan : Plan Fixed
plan = record { symbol = "EUR/USD"; epic = "CS.D.EURUSD.TODAY.IP"; order = order; signal = none }

abbrev after_retry : Net (Script (Payload Fixed)) (Body Fixed) (Payload Fixed)
after_retry = (place_with_size_retry scripted order none bot.net).1

retried_net :
    place_with_size_retry scripted order none bot.net ≡ (ok (confirmed, pos 3000), after_retry)
retried_net = ground (arith, retried)

send_entry_order-IsBooked_example :
    IsBooked statistics scripted plan
      (whole 55)
      confirmed
      (pos 3000)
      (send_entry_order statistics scripted plan none bot)
unfolding candle_for Dict.lookup
send_entry_order-IsBooked_example =
    send_entry_order-IsBooked statistics scripted plan (whole 55) none bot confirmed (pos 3000)
      after_retry retried_net refl refl refl refl refl

maybe_enter-IsPermitted_example :
    (maybe_enter statistics scripted (λ b. b) "EUR/USD" (pos 11_000) bot ≡ bot)
    ⊎ (openings (maybe_enter statistics scripted (λ b. b) "EUR/USD" (pos 11_000) bot).net
        ≤ openings bot.net)
    ⊎ (IsWanted statistics scripted "EUR/USD" bot bot
        × IsPermitted statistics scripted "EUR/USD" (pos 11_000) bot
        × (openings (maybe_enter statistics scripted (λ b. b) "EUR/USD" (pos 11_000) bot).net
            ≤ 2 + openings bot.net))
maybe_enter-IsPermitted_example =
    maybe_enter-IsPermitted statistics scripted (λ b. b) "EUR/USD" (pos 11_000) bot
