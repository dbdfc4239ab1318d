-- ===== src/Risk/Margin.antt =====
-- src/bot/risk/margin.py: the circuit breaker on equity / margin, and what it announces.
-- The risk-event callback and `EventBus.emit` are results; `loop` says whether an asyncio loop is
-- running, without which an emission is dropped.
pub mod Edges
mod Tests
use async_trading_engine.Base.{
  ℕ, Bool, String, Option, none, some, List, [], ◌∷◌, ◌++◌, if◌then◌else◌,
}
use async_trading_engine.Base.Float.{Float, max}
use async_trading_engine.Core.Models.{
  MarginCircuitState, halt_entries, defensive_close, emergency_flatten, liquidation, same_circuit,
  MarginAction, close_worst, flatten, liquidation_alert, AccountUpdate, MarginBreakerEvent,
  RiskEventKind, margin_circuit_transition, Message, margin_breaker, shutdown,
}
use async_trading_engine.Risk.Config.{RiskConfig}

pub record MarginCircuitBreaker (F : Type 0) : Type 0 where
  pub ratio : F
  pub margin_required : F
  pub state : MarginCircuitState

-- What an update leaves and sends: the call of the risk-event callback, and the emissions.
pub record Outcome (F : Type 0) : Type 0 where
  pub breaker : MarginCircuitBreaker F
  pub logged : Option (RiskEventKind F)
  pub emitted : List (Message F)

-- `action_map.get(new_state)`
abbrev pub action_of : MarginCircuitState → Option MarginAction
action_of MarginCircuitState.normal = none
action_of halt_entries = some MarginAction.halt_entries
action_of defensive_close = some close_worst
action_of emergency_flatten = some flatten
action_of liquidation = some liquidation_alert

-- `_emit_async`
abbrev pub emit_async : {F : Type 0} → Bool → Message F → List (Message F)
emit_async loop m = if loop then m ∷ [] else []

abbrev pub liquidation_reason : String
liquidation_reason = "margin_liquidation_floor_breached"

module _ {F : Type 0} ⦃d : Float F⦄ where
  open d use {zero, infinity, le, div}

  abbrev pub new_breaker : MarginCircuitBreaker F
  new_breaker = record {
    ratio = infinity;
    margin_required = zero;
    state = MarginCircuitState.normal;
  }

  unfoldable pub classify : RiskConfig F → F → MarginCircuitState
  classify c ratio =
      if le ratio c.margin_liquidation_floor
      then liquidation
      else if le ratio c.margin_emergency_ratio
      then emergency_flatten
      else if le ratio c.margin_defensive_ratio
      then defensive_close
      else if le ratio c.margin_halt_ratio
      then halt_entries
      else MarginCircuitState.normal

  -- The ratio of an account snapshot, its parts clamped at zero.
  unfoldable pub ratio_of : AccountUpdate F → F
  ratio_of u =
      let margin_required = max zero u.margin_required in
      if le margin_required zero then infinity else div (max zero u.equity) margin_required

  -- The shutdown request at the broker's floor.
  pub alarms : Bool → MarginCircuitState → List (Message F)
  alarms loop liquidation = emit_async loop (shutdown liquidation_reason)
  alarms loop _ = []

  -- The emissions on a transition into `new_state`.
  pub transition_messages : Bool → ℕ → AccountUpdate F → MarginCircuitState → List (Message F)
  transition_messages loop now u new_state =
      elim (action_of new_state) [
        | none ↦ []
        | some action ↦ emit_async loop (
            margin_breaker (record {
              timestamp = now;
              state = new_state;
              action = action;
              ratio = ratio_of u;
              equity = max zero u.equity;
              margin_required = max zero u.margin_required;
            }))
      ]
      ++ alarms loop new_state

  -- `update`, at clock reading `now`.
  pub update : RiskConfig F → Bool → ℕ → MarginCircuitBreaker F → AccountUpdate F → Outcome F
  update c loop now b u =
      let ratio = ratio_of u in
      let new_state = classify c ratio in
      let moved : MarginCircuitBreaker F = record {
        ratio = ratio;
        margin_required = max zero u.margin_required;
        state = new_state;
      } in
      if same_circuit new_state b.state
      then record { breaker = moved; logged = none; emitted = [] }
      else record {
        breaker = moved;
        logged = some (
            margin_circuit_transition b.state new_state (max zero u.equity)
              (max zero u.margin_required) ratio);
        emitted = transition_messages loop now u new_state;
      }
