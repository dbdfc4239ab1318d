-- ===== src/Risk/Manager/Equity.antt =====
-- Account marks: `update_equity` with the drawdown halt, and `update_margin_state`.
pub mod Halt
pub mod Squeeze
use async_trading_engine.Base.{
  ℕ, suc, Bool, true, false, not, ◌&&◌, Option, none, some, List, [], ◌∷◌, ◌++◌, if◌then◌else◌, leb,
}
use async_trading_engine.Base.Float.{Float}
use async_trading_engine.Core.Models.{
  red, same_tier, AccountUpdate, RiskEventKind, drawdown_tier, drawdown_red_halt,
  drawdown_halt_cleared, Message, risk_alert,
}
use async_trading_engine.Risk.Drawdown
use async_trading_engine.Risk.Drawdown.{TierChange, drawdown_pct}
use async_trading_engine.Risk.Fscs
use async_trading_engine.Risk.Margin
use async_trading_engine.Risk.Manager.State.{
  RiskManager, no_reason, red_confirmed, new_event, log_event, log_risk_event,
}
use async_trading_engine.Risk.Margin.{emit_async}

-- A method that changes the manager and sends messages.
abbrev pub Sent : Type 0 → Type 0
Sent F = RiskManager F × List (Message F)

-- The next method runs on what the first one left.
abbrev pub and_then : {F : Type 0} → Sent F → (RiskManager F → Sent F) → Sent F
and_then (m, sent) next = let (m', more) = next m in (m', sent ++ more)

-- A risk event, if there is one.
unfoldable pub log_optional :
    {F : Type 0} → Bool → ℕ → RiskManager F → Option (RiskEventKind F) → Sent F
log_optional loop now m none = (m, [])
log_optional loop now m (some kind) = log_risk_event loop now m kind

module _ {F : Type 0} ⦃d : Float F⦄ where
  open d use {zero}

  -- `_on_tier_change`, if the tracker calls it: the event is logged and an alert sent.
  unfoldable pub on_tier_change : Bool → ℕ → RiskManager F → Option (TierChange F) → Sent F
  on_tier_change loop now m none = (m, [])
  on_tier_change loop now m (some c) =
      log_risk_event loop now m
        (drawdown_tier c.old_tier c.new_tier c.drawdown c.equity m.drawdown.peak_equity)

  -- `self._fscs.update_equity(equity)`
  unfoldable pub fscs_step : Bool → ℕ → F → RiskManager F → Sent F
  fscs_step loop now equity m =
      let (warned, event) = Fscs.update_equity m.config m.fscs_warned equity in
      log_optional loop now (record m { fscs_warned = warned }) event

  -- `self._drawdown.update_equity(equity)`
  unfoldable pub drawdown_step : Bool → ℕ → F → RiskManager F → Sent F
  drawdown_step loop now equity m =
      let (tracker, change) = Drawdown.update_equity m.config m.drawdown equity in
      on_tier_change loop now (record m { drawdown = tracker }) change

  -- `_evaluate_drawdown_halt`; its alerts go to the bus only, not into the ledger.
  unfoldable pub evaluate_drawdown_halt : Bool → ℕ → RiskManager F → Sent F
  evaluate_drawdown_halt loop now m =
      let dd = drawdown_pct m.drawdown in
      let reads = suc m.consecutive_red in
      if same_tier m.drawdown.tier red
      then if leb m.config.drawdown_red_confirm_count reads && not m.trading_halted
        then (
          record m {
            consecutive_red = reads;
            trading_halted = true;
            halt_reason = red_confirmed dd reads;
          },
          emit_async loop (
              risk_alert (
                new_event now
                  (drawdown_red_halt dd reads m.drawdown.peak_equity m.drawdown.equity))),
        )
        else (record m { consecutive_red = reads }, [])
      else if m.trading_halted
      then (
        record m { consecutive_red = 0; trading_halted = false; halt_reason = no_reason },
        emit_async loop (risk_alert (new_event now (drawdown_halt_cleared dd m.drawdown.tier))),
      )
      else (record m { consecutive_red = 0 }, [])

  -- `update_equity`; `in_blackout` is what the injected predicate answers, `false` without one.
  unfoldable pub update_equity : Bool → Bool → ℕ → RiskManager F → F → Sent F
  update_equity in_blackout loop now m equity =
      if m.config.drawdown_maintenance_guard && in_blackout
      then (m, [])
      else and_then (and_then (fscs_step loop now equity m) (drawdown_step loop now equity))
          (evaluate_drawdown_halt loop now)

  -- `equity_for_sizing`
  unfoldable pub equity_for_sizing : RiskManager F → F → F
  equity_for_sizing m equity = Fscs.cap_for_sizing m.config equity

  -- `update_margin_state`: the breaker's risk event is logged first, then the breaker's own messages.
  pub update_margin_state : Bool → ℕ → RiskManager F → AccountUpdate F → Sent F
  update_margin_state loop now m u =
      let outcome = Margin.update m.config loop now m.margin_breaker u in
      let (logged, alerts) =
        log_optional loop now (record m { margin_breaker = outcome.breaker }) outcome.logged in
      (logged, alerts ++ outcome.emitted)
