-- ===== src/Core/Models.antt =====
-- src/bot/core/models.py and src/bot/core/time_constants.py. `F` is the type of Python's floats.
-- Timestamps are milliseconds since the epoch and never negative, so they are natural numbers.
use async_trading_engine.Base.{ℕ, ◌*◌, Bool, true, false, Option, none, String}

abbrev pub hour_ms : ℕ
hour_ms = 3_600_000

abbrev pub day_ms : ℕ
day_ms = 24 * hour_ms

abbrev pub week_ms : ℕ
week_ms = 7 * day_ms

abbrev pub month_ms : ℕ
month_ms = 30 * day_ms

pub data ErrorType : Type 0 where
  network_timeout rate_limit service_unavailable connection_error market_closed : ErrorType
  authentication_failed exchange_error invalid_order unknown_error : ErrorType

-- `ErrorType.is_retryable`
unfoldable pub is_retryable : ErrorType → Bool
is_retryable network_timeout = true
is_retryable rate_limit = true
is_retryable service_unavailable = true
is_retryable connection_error = true
is_retryable market_closed = true
is_retryable _ = false

-- What a call can raise: an `ExchangeError` with its type and message, its subclass
-- `MarketClosedError`, a `TimeoutError` or `ClientConnectionError`, and any other exception.
pub data Failure : Type 0 where
  exchange_failure : ErrorType → String → Failure
  closed_failure : String → Failure
  connection_failure : Failure
  other_failure : Failure

-- What a call returns or raises.
pub data Result {ℓ} (A : Type ℓ) : Type ℓ where
  ok : A → Result A
  failed : Failure → Result A

pub data OrderSide : Type 0 where
  buy sell : OrderSide

pub data RiskLevel : Type 0 where
  normal elevated critical halted : RiskLevel

pub data DrawdownTier : Type 0 where
  normal yellow orange red : DrawdownTier

-- `DrawdownTier.severity`
abbrev pub severity : DrawdownTier → ℕ
severity DrawdownTier.normal = 0
severity yellow = 1
severity orange = 2
severity red = 3

abbrev pub same_tier : DrawdownTier → DrawdownTier → Bool
same_tier DrawdownTier.normal DrawdownTier.normal = true
same_tier yellow yellow = true
same_tier orange orange = true
same_tier red red = true
same_tier _ _ = false

pub data MarginCircuitState : Type 0 where
  normal halt_entries defensive_close emergency_flatten liquidation : MarginCircuitState

abbrev pub same_circuit : MarginCircuitState → MarginCircuitState → Bool
same_circuit MarginCircuitState.normal MarginCircuitState.normal = true
same_circuit halt_entries halt_entries = true
same_circuit defensive_close defensive_close = true
same_circuit emergency_flatten emergency_flatten = true
same_circuit liquidation liquidation = true
same_circuit _ _ = false

-- `MarginAction`
pub data MarginAction : Type 0 where
  halt_entries close_worst flatten liquidation_alert : MarginAction

pub data OrderType : Type 0 where
  market limit : OrderType

pub data OrderStatus : Type 0 where
  pending partial filled cancelled rejected open_order : OrderStatus

-- `IGOrderRequest`; its fields have the defaults of the class in `order_request`.
pub record OrderRequest (F : Type 0) : Type 0 where
  pub epic : String
  pub direction : OrderSide
  pub size : F
  pub order_type : OrderType
  pub stop_distance : Option F
  pub limit_distance : Option F
  pub guaranteed_stop : Bool
  pub deal_reference : String

abbrev pub order_request : {F : Type 0} → String → OrderSide → F → Option F → OrderRequest F
order_request epic direction size stop_distance = record {
  epic = epic;
  direction = direction;
  size = size;
  stop_distance = stop_distance;
  order_type = market;
  limit_distance = none;
  guaranteed_stop = false;
  deal_reference = "";
}

-- `OrderResult`, less the fee and the raw response, which no modelled code reads.
pub record OrderResult (F : Type 0) : Type 0 where
  pub order_id : String
  pub client_order_id : String
  pub symbol : String
  pub side : OrderSide
  pub order_type : OrderType
  pub status : OrderStatus
  pub requested_quantity : F
  pub filled_quantity : F
  pub average_price : F
  pub timestamp : ℕ

pub record Position (F : Type 0) : Type 0 where
  pub symbol : String
  pub side : OrderSide
  pub entry_price : F
  pub quantity : F
  pub current_price : F
  pub unrealised_pnl : F
  pub realised_pnl : F
  pub opened_at : ℕ
  pub updated_at : ℕ

pub record AccountUpdate (F : Type 0) : Type 0 where
  pub timestamp : ℕ
  pub equity : F
  pub margin_required : F
  pub available_to_deal : F
  pub unrealised_pnl : F

pub record MarginBreakerEvent (F : Type 0) : Type 0 where
  pub timestamp : ℕ
  pub state : MarginCircuitState
  pub action : MarginAction
  pub ratio : F
  pub equity : F
  pub margin_required : F

-- The `event_type` of a `RiskEvent` with the `details` that go with it.
pub data RiskEventKind (F : Type 0) : Type 0 where
  -- `drawdown_<tier>`: old tier, new tier, drawdown, equity, peak equity
  drawdown_tier : DrawdownTier → DrawdownTier → F → F → F → RiskEventKind F
  -- drawdown, consecutive reads, peak equity, equity
  drawdown_red_halt : F → ℕ → F → F → RiskEventKind F
  -- drawdown, tier
  drawdown_halt_cleared : F → DrawdownTier → RiskEventKind F
  -- equity, warn threshold, cap
  fscs_warn : F → F → F → RiskEventKind F
  -- count, symbol, pnl
  consecutive_losses : ℕ → String → F → RiskEventKind F
  -- daily pnl, limit
  daily_limit_hit : F → F → RiskEventKind F
  -- from, to, equity, margin required, ratio
  margin_circuit_transition : MarginCircuitState → MarginCircuitState → F → F → F → RiskEventKind F

pub record RiskEvent (F : Type 0) : Type 0 where
  pub timestamp : ℕ
  pub kind : RiskEventKind F
  pub resolved : Bool
  pub resolved_at : Option ℕ

-- What is handed to `EventBus.emit`: the event type and its payload.
pub data Message (F : Type 0) : Type 0 where
  risk_alert : RiskEvent F → Message F
  margin_breaker : MarginBreakerEvent F → Message F
  shutdown : String → Message F
