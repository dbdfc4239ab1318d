-- ===== src/Risk/Manager/Positions/Tracking.antt =====
-- What fills and closes do to the open positions and the ledger of events.
use async_trading_engine.Base.{
  ℕ, ◌≤◌, ◌≡◌, ◌≢◌, refl, Bool, Option, none, some, [], ◌∷◌, ◌++◌, String, arith, length,
  length-last_n, ap, ◌∙◌,
}
use async_trading_engine.Base.Dict
use async_trading_engine.Base.Float.{Float}
use async_trading_engine.Core.Models.{RiskEvent, RiskEventKind}
use async_trading_engine.Risk.LossWindows
use async_trading_engine.Risk.Manager.State.{RiskManager, log_event, log_risk_event}
use async_trading_engine.Risk.Manager.Equity.{log_optional}
use async_trading_engine.Risk.Manager.Positions.{
  get_position, on_position_closed, loss_pause_event, daily_limit_event,
}

-- The ledger never holds more than 200 events.
abbrev pub IsBounded : {F : Type 0} → RiskManager F → Type 0
IsBounded m = length m.risk_events ≤ 200

log_event-IsBounded :
    {F : Type 0} (m : RiskManager F) (event : RiskEvent F) → IsBounded (log_event m event)
unfolding log_event
log_event-IsBounded m event = ground (arith, length-last_n 100 (m.risk_events ++ event ∷ []))

log_optional-IsBounded :
    {F : Type 0} (loop : Bool) (now : ℕ) (m : RiskManager F) (kind : Option (RiskEventKind F))
    → IsBounded m
    → IsBounded (log_optional loop now m kind).0
unfolding log_optional log_risk_event
log_optional-IsBounded loop now m none h = h
log_optional-IsBounded loop now m (some kind) h = log_event-IsBounded m _

log_optional-positions :
    {F : Type 0} (loop : Bool) (now : ℕ) (m : RiskManager F) (kind : Option (RiskEventKind F))
    → ((log_optional loop now m kind).0.open_positions ≡ m.open_positions)
      × ((log_optional loop now m kind).0.loss_windows ≡ m.loss_windows)
unfolding log_optional log_risk_event log_event
log_optional-positions loop now m none = (refl, refl)
log_optional-positions loop now m (some kind) = (refl, refl)

module _ {F : Type 0} ⦃d : Float F⦄ where
  open d use {zero, lt}

  pub lookup-on_position_closed :
      (loop : Bool) (now : ℕ) (m : RiskManager F) (symbol : String) (pnl : F)
      → Dict.lookup symbol (on_position_closed loop now m symbol pnl).0.open_positions ≡ none
  unfolding on_position_closed
  lookup-on_position_closed loop now m symbol pnl =
      let closed = record m {
        loss_windows = LossWindows.record_close m.loss_windows now pnl;
        open_positions = Dict.erase symbol m.open_positions;
      } in
      let paused = loss_pause_event closed symbol pnl in
      let logged = (log_optional loop now closed paused).0 in
      ap (Dict.lookup symbol) (
        (log_optional-positions loop now logged (daily_limit_event logged now)).0
        ∙ (log_optional-positions loop now closed paused).0)
      ∙ Dict.lookup-erase_self symbol m.open_positions

  -- A close takes the position of its symbol out, leaves the others, rolls the result into the loss
  -- windows, and keeps the ledger of events within its bound.
  on_position_closed_lem :
      (loop : Bool) (now : ℕ) (m : RiskManager F) (symbol other : String) (pnl : F)
      → other ≢ symbol
      → IsBounded m
      → let m' = (on_position_closed loop now m symbol pnl).0 in
        (get_position m' symbol ≡ none)
        × (get_position m' other ≡ get_position m other)
        × (m'.loss_windows ≡ LossWindows.record_close m.loss_windows now pnl)
        × IsBounded m'
  unfolding on_position_closed get_position
  on_position_closed_lem loop now m symbol other pnl ne h =
      let closed = record m {
        loss_windows = LossWindows.record_close m.loss_windows now pnl;
        open_positions = Dict.erase symbol m.open_positions;
      } in
      let paused = loss_pause_event closed symbol pnl in
      let logged = (log_optional loop now closed paused).0 in
      let limit = daily_limit_event logged now in
      let (kept, windows) = log_optional-positions loop now closed paused in
      let (kept', windows') = log_optional-positions loop now logged limit in
      let bounded = log_optional-IsBounded loop now closed paused h in
      (
        ap (Dict.lookup symbol) (kept' ∙ kept) ∙ Dict.lookup-erase_self symbol m.open_positions,
        ap (Dict.lookup other) (kept' ∙ kept)
            ∙ Dict.lookup-erase_ne symbol other m.open_positions ne,
        windows' ∙ windows,
        log_optional-IsBounded loop now logged limit bounded,
      )
