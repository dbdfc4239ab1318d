-- ===== src/Risk/Manager/Tests.antt =====
-- Runs of the risk manager on fixed-point numbers, with the default configuration.
mod Positions
use async_trading_engine.Base.{
  ℕ, ◌+◌, ◌*◌, ◌≤◌, ◌≡◌, ◌≢◌, ◌↔◌, refl, true, false, none, some, [], ◌∷◌, String, arith, leb,
  length,
}
use async_trading_engine.Base.Dict
use async_trading_engine.Base.Dict.{same_key_iff}
use async_trading_engine.Base.Int.{pos, negsuc}
use async_trading_engine.Base.Fixed.{Fixed, fixed_float, whole, Fixed-IsOrdered}
use async_trading_engine.Core.Models.{
  order_request, market, filled, DrawdownTier, yellow, day_ms, week_ms, OrderRequest, OrderResult,
  AccountUpdate, Position, buy,
}
use async_trading_engine.Risk.LossWindows
use async_trading_engine.Risk.LossWindows.{window_pnl}
use async_trading_engine.Risk.Config.{RiskConfig, default_config}
use async_trading_engine.Risk.Sectors.{sector_for}
use async_trading_engine.Risk.Manager.State.{RiskManager, new_manager, log_event, log_risk_event}
use async_trading_engine.Risk.Manager.Gates.{sum_risk, existing_sector_risk, check_volatility}
use async_trading_engine.Risk.Manager.Evaluate.{evaluate_ig_order}
use async_trading_engine.Risk.Manager.Evaluate.Approval.{Outcome, evaluate_ig_order-Outcome}
use async_trading_engine.Risk.Manager.Evaluate.Permit.{Permits, approved_iff_Permits}
use async_trading_engine.Risk.Manager.Evaluate.RateLimit.{
  Call, recent, evaluate_calls, evaluate_calls-rate_limited,
}
use async_trading_engine.Risk.Fscs
use async_trading_engine.Risk.Budgets
use async_trading_engine.Risk.Drawdown
use async_trading_engine.Risk.Manager.Equity.{
  update_equity, update_margin_state, equity_for_sizing, fscs_step, drawdown_step, log_optional,
  on_tier_change, evaluate_drawdown_halt,
}
use async_trading_engine.Risk.Manager.Equity.Halt.{
  IsDebounced, Reading, update_equities, update_equities-halt,
}
use async_trading_engine.Risk.Margin.{classify, ratio_of}
use async_trading_engine.Risk.Manager.Equity.Squeeze.{update_margin_state-refuses}
use async_trading_engine.Risk.Manager.Positions.{
  get_position, position_of, on_fill, on_position_closed, total_exposure_pct, sum_exposure,
  update_atr, drop_position, seed_position, clear_risk_budget, set_risk_budget,
  set_trailing_stop_lookup,
}
use async_trading_engine.Risk.Manager.Persistence.Restart.{restarted, restarted-forgets}

abbrev pub config : RiskConfig Fixed
config = default_config

abbrev pub fresh : RiskManager Fixed
fresh = new_manager config

abbrev pub fill : OrderResult Fixed
fill = record {
  order_id = "DEAL";
  client_order_id = "REF";
  order_type = market;
  status = filled;
  requested_quantity = whole 2;
  symbol = "CS.D.EURUSD.TODAY.IP";
  side = buy;
  filled_quantity = whole 2;
  average_price = whole 100;
  timestamp = 5;
}

abbrev pub held : Position Fixed
held = position_of fill

-- One position, one old order, and a peak of 1000.
abbrev pub manager : RiskManager Fixed
manager = record fresh {
  open_positions = ("CS.D.EURUSD.TODAY.IP", held) ∷ [];
  orders_this_hour = 0 ∷ [];
  drawdown = record { equity = whole 1000; peak_equity = whole 1000; tier = DrawdownTier.normal };
}

abbrev pub order : OrderRequest Fixed
order = order_request "CS.D.GBPUSD.TODAY.IP" buy (whole 1) (some (whole 10))

abbrev cautious : RiskManager Fixed
cautious = record manager { drawdown = record manager.drawdown { tier = yellow } }

evaluate_ig_order-Outcome_example :
    Outcome cautious order day_ms
      (evaluate_ig_order cautious order (whole 0) (whole 1000) (whole 0) day_ms day_ms)
evaluate_ig_order-Outcome_example =
    evaluate_ig_order-Outcome cautious order (whole 0) (whole 1000) (whole 0) day_ms day_ms

approved_iff_Permits_example :
    ((evaluate_ig_order manager order (whole 0) (whole 1000) (whole 0) day_ms day_ms).1.approved
      ≡ true)
    ↔ Permits manager (whole 1000) order (whole 0) (whole 0) day_ms day_ms
approved_iff_Permits_example =
    approved_iff_Permits manager order (whole 0) (whole 1000) (whole 0) day_ms day_ms

abbrev call_at : ℕ → Call Fixed
call_at now = record {
  order = order;
  margin_used = whole 0;
  equity = whole 1000;
  estimated = whole 0;
  gate_now = now;
  now = now;
}

evaluate_calls-rate_limited_example :
    recent day_ms (0 ∷ [])
      + recent day_ms (evaluate_calls manager (call_at 10 ∷ call_at day_ms ∷ [])).1
    ≤ 60
evaluate_calls-rate_limited_example =
    evaluate_calls-rate_limited manager (call_at 10 ∷ call_at day_ms ∷ []) day_ms
      (omega arith, (omega arith, tt)) (omega arith)

manager-IsDebounced : IsDebounced manager
manager-IsDebounced = record { agrees = refl; confirms = omega arith }

abbrev red_mark : ℕ → Reading Fixed
red_mark now = record { in_blackout = false; now = now; equity = whole 800 }

-- Two marks at a drawdown of 20% do not halt, three do.
update_equities-halt_example :
    (update_equities true manager (red_mark 1 ∷ red_mark 2 ∷ [])).trading_halted ≡ leb 3 2
unfolding update_equity fscs_step drawdown_step log_optional log_risk_event log_event on_tier_change
    evaluate_drawdown_halt Fscs.update_equity Drawdown.update_equity Drawdown.observe
    Drawdown.drawdown_pct Drawdown.tier_for_drawdown Drawdown.tier_with_hysteresis
update_equities-halt_example =
    update_equities-halt true manager (red_mark 1 ∷ red_mark 2 ∷ []) manager-IsDebounced refl
      (refl, refl, (refl, refl, tt))
