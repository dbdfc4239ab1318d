-- ===== src/Risk/Manager/Persistence.antt =====
-- `snapshot_state` and `load_state`.
pub mod Restart
use async_trading_engine.Base.{ℕ, Bool, List, [], ◌∷◌, map, last_n, String}
use async_trading_engine.Base.Dict.{Dict}
use async_trading_engine.Base.Float.{Float}
use async_trading_engine.Core.Models.{RiskEvent}
use async_trading_engine.Risk.Budgets
use async_trading_engine.Risk.Drawdown
use async_trading_engine.Risk.LossWindows
use async_trading_engine.Risk.LossWindows.{Close}
use async_trading_engine.Risk.Manager.State.{RiskManager, HaltReason}

-- `RiskState` of src/bot/core/models.py.
pub record RiskState (F : Type 0) : Type 0 where
  pub peak_equity : F
  pub daily_pnl : F
  pub weekly_pnl : F
  pub monthly_pnl : F
  pub consecutive_losses : ℕ
  pub trade_results : List (Close F)
  pub trading_halted : Bool
  pub halt_reason : HaltReason F
  pub risk_events : List (RiskEvent F)
  pub atr_values : Dict (List F)
  pub risk_budgets : Dict F

-- `{sym: deque(vals, maxlen=lookback)}`
pub trim_buffers : {F : Type 0} → ℕ → Dict (List F) → Dict (List F)
trim_buffers lookback [] = []
trim_buffers lookback ((symbol, values) ∷ rest) =
    (symbol, last_n lookback values) ∷ trim_buffers lookback rest

-- `snapshot_state` prunes the trade results, in the manager too.
pub snapshot_state : {F : Type 0} → RiskManager F → ℕ → RiskManager F × RiskState F
snapshot_state m now =
    let windows = LossWindows.prune m.loss_windows now in
    (
      record m { loss_windows = windows },
      record {
        peak_equity = m.drawdown.peak_equity;
        daily_pnl = windows.daily_pnl;
        weekly_pnl = windows.weekly_pnl;
        monthly_pnl = windows.monthly_pnl;
        consecutive_losses = windows.consecutive_losses;
        trade_results = windows.trade_results;
        trading_halted = m.trading_halted;
        halt_reason = m.halt_reason;
        risk_events = last_n 100 m.risk_events;
        atr_values = m.atr_values;
        risk_budgets = Budgets.snapshot m.budget_ledger;
      },
    )

module _ {F : Type 0} ⦃d : Float F⦄ where
  -- `load_state`
  pub load_state : RiskManager F → RiskState F → RiskManager F
  load_state m s = record m {
    loss_windows = LossWindows.load_snapshot (record {
      daily_pnl = s.daily_pnl;
      weekly_pnl = s.weekly_pnl;
      monthly_pnl = s.monthly_pnl;
      consecutive_losses = s.consecutive_losses;
      trade_results = s.trade_results;
    });
    trading_halted = s.trading_halted;
    halt_reason = s.halt_reason;
    risk_events = s.risk_events;
    atr_values = trim_buffers m.config.volatility_atr_lookback s.atr_values;
    budget_ledger = Budgets.load_snapshot m.budget_ledger s.risk_budgets;
    drawdown = Drawdown.recompute_tier m.config (Drawdown.set_peak_equity m.drawdown s.peak_equity);
  }
