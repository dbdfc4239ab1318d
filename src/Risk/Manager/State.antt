-- ===== src/Risk/Manager/State.antt =====
-- The state of `RiskManager`, its decisions, and the ledger of risk events.
use async_trading_engine.Base.{
  ℕ, Bool, false, none, List, [], ◌∷◌, ◌++◌, String, if◌then◌else◌, ltb, length, last_n,
}
use async_trading_engine.Base.Dict.{Dict}
use async_trading_engine.Base.Float.{Float}
use async_trading_engine.Core.Models.{
  RiskLevel, DrawdownTier, MarginCircuitState, Position, RiskEvent, RiskEventKind, Message,
  risk_alert,
}
use async_trading_engine.Risk.Config.{RiskConfig}
use async_trading_engine.Risk.Drawdown
use async_trading_engine.Risk.Drawdown.{DrawdownTracker}
use async_trading_engine.Risk.LossWindows
use async_trading_engine.Risk.LossWindows.{LossWindowTracker}
use async_trading_engine.Risk.Budgets.{RiskBudgetLedger, new_ledger}
use async_trading_engine.Risk.Margin.{MarginCircuitBreaker, new_breaker, emit_async}

-- `_halt_reason`: the empty text, or the text on a confirmed RED drawdown with its numbers.
pub data HaltReason (F : Type 0) : Type 0 where
  no_reason : HaltReason F
  red_confirmed : F → ℕ → HaltReason F

-- The texts of the decisions, as what is formatted into them.
pub data Reason (F : Type 0) : Type 0 where
  trading_halted : HaltReason F → Reason F
  daily_limit weekly_limit monthly_limit : Reason F
  paused : ℕ → Reason F
  max_positions : Reason F
  -- share of equity, open risk, new risk
  total_risk : F → F → F → Reason F
  -- sector, share of equity, open risk in the sector, new risk
  sector_risk : String → F → F → F → Reason F
  margin_utilisation : F → Reason F
  breaker_active : MarginCircuitState → F → Reason F
  -- projected ratio
  pre_trade_margin : F → Reason F
  rate_limit : Reason F
  -- current and average ATR
  volatility : F → F → Reason F
  red_tier : Reason F
  approved_in_full : Reason F
  -- stake asked for, stake granted, tier
  stake_reduced : F → F → DrawdownTier → Reason F

pub record RiskDecision (F : Type 0) : Type 0 where
  pub approved : Bool
  pub original_quantity : F
  pub adjusted_quantity : F
  pub reason : Reason F
  pub risk_level : RiskLevel

pub record RiskManager (F : Type 0) : Type 0 where
  pub config : RiskConfig F
  pub drawdown : DrawdownTracker F
  pub loss_windows : LossWindowTracker F
  pub orders_this_hour : List ℕ
  pub open_positions : Dict (Position F)
  pub budget_ledger : RiskBudgetLedger F
  pub atr_values : Dict (List F)
  pub current_atr : Dict F
  pub trading_halted : Bool
  pub halt_reason : HaltReason F
  pub consecutive_red : ℕ
  pub margin_breaker : MarginCircuitBreaker F
  pub fscs_warned : Bool
  pub risk_events : List (RiskEvent F)

-- `_log_risk_event_obj`: past 200 events the last 100 are kept.
unfoldable pub log_event : {F : Type 0} → RiskManager F → RiskEvent F → RiskManager F
log_event m event =
    let events = m.risk_events ++ event ∷ [] in
    record m { risk_events = if ltb 200 (length events) then last_n 100 events else events }

abbrev pub new_event : {F : Type 0} → ℕ → RiskEventKind F → RiskEvent F
new_event now kind = record { timestamp = now; kind = kind; resolved = false; resolved_at = none }

-- `_log_risk_event`, with what it schedules on the event bus.
unfoldable pub log_risk_event :
    {F : Type 0} → Bool → ℕ → RiskManager F → RiskEventKind F → RiskManager F × List (Message F)
unfolding log_event
log_risk_event loop now m kind =
    (log_event m (new_event now kind), emit_async loop (risk_alert (new_event now kind)))

module _ {F : Type 0} ⦃d : Float F⦄ where
  open d use {zero}

  -- `RiskManager(config, ...)`
  abbrev pub new_manager : RiskConfig F → RiskManager F
  new_manager c = record {
    config = c;
    drawdown = Drawdown.new_tracker;
    loss_windows = LossWindows.new_tracker;
    orders_this_hour = [];
    open_positions = [];
    budget_ledger = new_ledger;
    atr_values = [];
    current_atr = [];
    trading_halted = false;
    halt_reason = no_reason;
    consecutive_red = 0;
    margin_breaker = new_breaker;
    fscs_warned = false;
    risk_events = [];
  }

  -- `_reject`
  abbrev pub reject : F → Reason F → RiskLevel → RiskDecision F
  reject qty reason level = record {
    approved = false;
    original_quantity = qty;
    adjusted_quantity = zero;
    reason = reason;
    risk_level = level;
  }
