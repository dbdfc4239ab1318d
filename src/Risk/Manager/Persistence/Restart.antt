-- ===== src/Risk/Manager/Persistence/Restart.antt =====
-- What a manager remembers over a restart, and what it forgets.
use async_trading_engine.Base.{ℕ, ◌≤◌, ◌≡◌, refl, none, String, arith}
use async_trading_engine.Base.Dict
use async_trading_engine.Base.Dict.{Dict}
use async_trading_engine.Base.Float.{Float, IsOrdered}
use async_trading_engine.Core.Models.{month_ms, DrawdownTier}
use async_trading_engine.Risk.Budgets
use async_trading_engine.Risk.Drawdown
use async_trading_engine.Risk.LossWindows
use async_trading_engine.Risk.LossWindows.{window_pnl}
use async_trading_engine.Risk.LossWindows.Rolling.{window_pnl-prune}
use async_trading_engine.Risk.Manager.State.{RiskManager, new_manager}
use async_trading_engine.Risk.Manager.Gates.{check_volatility, volatility_gate}
use async_trading_engine.Risk.Manager.Persistence.{snapshot_state, load_state}

module _ {F : Type 0} ⦃d : Float F⦄ where
  open d use {zero, lt}

  abbrev pub restarted : RiskManager F → ℕ → RiskManager F
  restarted m now = load_state (new_manager m.config) (snapshot_state m now).1

  -- A restart keeps the halt with its reason, the count of losses, every window of at most thirty
  -- days that is asked for at the time of the snapshot or later, and the budgets.
  restarted-keeps :
      (m : RiskManager F) (now later window : ℕ) (epic : String)
      → now ≤ later
      → window ≤ month_ms
      → ((restarted m now).trading_halted ≡ m.trading_halted)
        × ((restarted m now).halt_reason ≡ m.halt_reason)
        × ((restarted m now).loss_windows.consecutive_losses ≡ m.loss_windows.consecutive_losses)
        × (window_pnl (restarted m now).loss_windows later window
            ≡ window_pnl m.loss_windows later window)
        × (Dict.lookup epic (restarted m now).budget_ledger.budgets
            ≡ Dict.lookup epic m.budget_ledger.budgets)
  unfolding load_state snapshot_state LossWindows.load_snapshot LossWindows.prune
      Budgets.load_snapshot Budgets.snapshot
  restarted-keeps m now later window epic h k =
      (refl, refl, refl, window_pnl-prune m.loss_windows now later window h k, refl)

  -- A restart forgets the drawdown tier and the current ATRs: the tier is NORMAL whatever the peak
  -- that was stored, since no equity is, and the volatility breaker passes every EPIC.
  pub restarted-forgets :
      IsOrdered F
      → (m : RiskManager F) (now : ℕ) (size : F) (epic : String)
      → ((restarted m now).drawdown.tier ≡ DrawdownTier.normal)
        × (check_volatility (restarted m now) size epic ≡ none)
  unfolding load_state Drawdown.recompute_tier Drawdown.set_peak_equity check_volatility
      volatility_gate Dict.lookup
  restarted-forgets laws m now size epic =
      (ground (arith, laws.lt_irrefl zero), ground (arith, laws.lt_irrefl zero))
