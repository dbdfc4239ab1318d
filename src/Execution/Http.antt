-- ===== src/Execution/Http.antt =====
-- src/bot/execution/ig_http.py: the translation of responses and the request with its retries. The
-- connection to IG is a parameter: its state `S` holds what `aiohttp` and the session keep.
pub mod Retry
pub mod Once
mod Tests
use async_trading_engine.Base.{
  ℕ, zero, suc, ◌+◌, ◌-◌, ◌/◌, ◌%◌, ◌^◌, Bool, true, false, not, ◌&&◌, ◌||◌, Option, none, some,
  List, [], ◌∷◌, String, if◌then◌else◌, ltb, eqb,
}
use async_trading_engine.Base.Dict.{same_key}
use async_trading_engine.Core.Models.{
  ErrorType, network_timeout, rate_limit, service_unavailable, connection_error,
  authentication_failed, exchange_error, market_closed, is_retryable, Failure, exchange_failure,
  closed_failure, connection_failure, other_failure, Result, ok, failed,
}
use text.Mathlib.Text.{starts_with}
use Prim.Native.String.{◌++◌ as ◌<>◌}

pub data Verb : Type 0 where
  get post delete : Verb

-- A request with what the client puts into it; `B` is the type of bodies.
pub record Request (B : Type 0) : Type 0 where
  pub verb : Verb
  pub path : String
  pub body : Option B
  pub idempotent : Bool

-- An `aiohttp.ClientResponse`: `payload` is the decoded body, `none` where `json()` raises, and
-- `error_code` the `errorCode` of a body that is an object.
pub record Response (J : Type 0) : Type 0 where
  pub status : ℕ
  pub text : String
  pub error_code : String
  pub payload : Option J

-- What sending comes to: a response, a timeout or dropped connection, or another exception.
pub data Reply (J : Type 0) : Type 0 where
  answered : Response J → Reply J
  dropped : Reply J
  raised : Reply J

abbrev digit : ℕ → String
digit zero = "0"
digit (suc zero) = "1"
digit (suc (suc zero)) = "2"
digit (suc (suc (suc zero))) = "3"
digit (suc (suc (suc (suc zero)))) = "4"
digit (suc (suc (suc (suc (suc zero))))) = "5"
digit (suc (suc (suc (suc (suc (suc zero)))))) = "6"
digit (suc (suc (suc (suc (suc (suc (suc zero))))))) = "7"
digit (suc (suc (suc (suc (suc (suc (suc (suc zero)))))))) = "8"
digit _ = "9"

-- `str(status)`: an HTTP status has three digits.
abbrev status_text : ℕ → String
status_text n = digit (n / 100) <> digit (n / 10 % 10) <> digit (n % 10)

-- `error_code.startswith(_RATE_LIMIT_ERROR_CODES)`
unfoldable pub is_allowance_code : String → Bool
is_allowance_code code =
    starts_with code "error.public-api.exceeded-api-key-allowance"
    || starts_with code "error.public-api.exceeded-account-allowance"
    || starts_with code "error.public-api.exceeded-account-trading-allowance"
    || starts_with code "error.public-api.exceeded-account-historical-data-allowance"

-- `resp.status in (500, 501, 502, 503, 504)`
abbrev pub is_server_error : ℕ → Bool
is_server_error n = eqb n 500 || eqb n 501 || eqb n 502 || eqb n 503 || eqb n 504

module _ {J : Type 0} where
  -- `error_code or text`
  abbrev detail : Response J → String
  detail r = if same_key r.error_code "" then r.text else r.error_code

  -- `_handle_response`
  unfoldable pub handle_response : Response J → Result J
  unfolding is_allowance_code
  handle_response r =
      if eqb r.status 200
      then elim r.payload [ none ↦ failed other_failure | some payload ↦ ok payload ]
      else failed (
          if eqb r.status 401
          then exchange_failure authentication_failed ("IG auth error: " <> detail r)
          else if eqb r.status 403
          then exchange_failure rate_limit ("IG rate limit / forbidden: " <> detail r)
          else if eqb r.status 429
          then exchange_failure rate_limit ("IG rate limit HTTP 429: " <> detail r)
          else if is_server_error r.status
          then exchange_failure service_unavailable
              ("IG server error HTTP " <> status_text r.status <> ": " <> detail r)
          else if is_allowance_code r.error_code
          then exchange_failure rate_limit ("IG allowance exceeded: " <> r.error_code)
          else exchange_failure exchange_error
              ("IG HTTP " <> status_text r.status <> ": " <> detail r))

  unfoldable pub outcome : Reply J → Result J
  outcome (answered r) = handle_response r
  outcome dropped = failed connection_failure
  outcome raised = failed other_failure

-- `_AMBIGUOUS_ON_RETRY`
unfoldable pub is_ambiguous : ErrorType → Bool
is_ambiguous network_timeout = true
is_ambiguous connection_error = true
is_ambiguous service_unavailable = true
is_ambiguous _ = false

-- What the handlers of `request` do about a failure.
pub data Reaction : Type 0 where
  give_up refresh_and_resend resend back_off : Reaction

-- The reaction to an `ExchangeError`: `auth_retry_used`, whether a refresh is going on, and whether
-- the token is still the one that was sent.
unfoldable pub react_to_error : Bool → Bool → Bool → Bool → ErrorType → Reaction
unfolding is_retryable is_ambiguous
react_to_error idempotent auth_retry_used refreshing same_token authentication_failed =
    if auth_retry_used || refreshing
    then give_up
    else if same_token
    then refresh_and_resend
    else resend
react_to_error idempotent auth_retry_used refreshing same_token error_type =
    if not (is_retryable error_type)
    then give_up
    else if not idempotent && is_ambiguous error_type
    then give_up
    else back_off

unfoldable pub react : Bool → Bool → Bool → Bool → Failure → Reaction
unfolding react_to_error
react idempotent used refreshing same_token (exchange_failure error_type message) =
    react_to_error idempotent used refreshing same_token error_type
react idempotent used refreshing same_token (closed_failure message) =
    react_to_error idempotent used refreshing same_token market_closed
react idempotent used refreshing same_token connection_failure =
    if idempotent then back_off else give_up
react idempotent used refreshing same_token other_failure = give_up

-- `_MAX_RETRIES`
abbrev pub max_retries : ℕ
max_retries = 6

-- `min(_RETRY_MAX_DELAY_S, _RETRY_INITIAL_DELAY_S * (2**attempt))`, in seconds
unfoldable pub delay_after : ℕ → ℕ
delay_after attempt = if ltb (2 ^ attempt) 30 then 2 ^ attempt else 30

-- The connection: sending, with all that other tasks do until the reply is there, the token that is
-- in use, whether a refresh is going on, `refresh_session` with its success, and the wall clock in
-- milliseconds.
pub record Link (S B J : Type 0) : Type 0 where
  pub send : Request B → S → Reply J × S
  pub cst : S → String
  pub refreshing : S → Bool
  pub refresh_session : S → Bool × S
  pub clock : S → ℕ

-- An entry of the log, which holds what `request` did, the newest first.
pub data Entry (B J : Type 0) : Type 0 where
  sent : Request B → Reply J → Entry B J
  refreshed : Bool → Entry B J
  slept : ℕ → Entry B J

pub record Net (S B J : Type 0) : Type 0 where
  pub world : S
  pub log : List (Entry B J)
