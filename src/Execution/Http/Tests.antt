-- ===== src/Execution/Http/Tests.antt =====
-- Runs of the request on scripted replies.
use async_trading_engine.Base.{ℕ, ◌+◌, ◌≤◌, ◌≡◌, refl, true, false, some, [], ◌∷◌}
use async_trading_engine.Core.Models.{ok, failed, connection_failure}
use async_trading_engine.Execution.Script.{Script, scripted, scripted_net, response}
use async_trading_engine.Execution.Http.{
  Request, post, dropped, Net, outcome, handle_response, is_allowance_code, react, react_to_error,
  delay_after,
}
use async_trading_engine.Execution.Http.Retry.{transmit, refresh, pause, attempts, request}
use async_trading_engine.Execution.Http.Once.{
  effects, sends, logins, request-effects, request_bounds,
}

-- An order, and the same request as one that may be repeated.
abbrev order : Request ℕ
order = record { verb = post; path = "/positions/otc"; body = some 1; idempotent = false }

abbrev query : Request ℕ
query = record order { idempotent = true }

-- The login has run out, IG is over its allowance, and then the request is lost.
abbrev troubled : Net (Script ℕ) ℕ ℕ
troubled = scripted_net (response 401 "" 0 ∷ response 403 "" 0 ∷ dropped ∷ response 200 "" 7 ∷ [])

order_is_not_repeated :
    ((request scripted order troubled).0 ≡ failed connection_failure)
    × (sends (request scripted order troubled).1.log ≡ 3)
unfolding request attempts transmit refresh pause outcome handle_response is_allowance_code react
    react_to_error sends
order_is_not_repeated = (refl, refl)

query_is_repeated : (request scripted query troubled).0 ≡ ok 7
unfolding request attempts transmit refresh pause outcome handle_response is_allowance_code react
    react_to_error
query_is_repeated = refl

delays : (delay_after 0 ≡ 1) × (delay_after 4 ≡ 16) × (delay_after 5 ≡ 30)
unfolding delay_after
delays = (refl, refl, refl)

request-effects_example :
    effects (λ q. true) (request scripted order troubled).1.log
    ≤ 1 + effects (λ q. true) troubled.log
request-effects_example = request-effects scripted (λ q. true) order troubled (λ e. refl)

request_bounds_example :
    (sends (request scripted order troubled).1.log ≤ 7 + sends troubled.log)
    × (logins (request scripted order troubled).1.log ≤ 1 + logins troubled.log)
request_bounds_example = request_bounds scripted order troubled
