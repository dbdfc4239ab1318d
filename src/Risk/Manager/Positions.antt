-- ===== src/Risk/Manager/Positions.antt =====
-- Fills and closes: the open positions, the loss windows, the ATR buffers and the budgets.
pub mod Tracking
use async_trading_engine.Base.{
  ℕ, Bool, true, false, ◌&&◌, Option, none, some, List, [], ◌∷◌, ◌++◌, map, String, if◌then◌else◌,
  leb, last_n,
}
use async_trading_engine.Base.Dict
use async_trading_engine.Base.Dict.{Dict}
use async_trading_engine.Base.Float.{Float}
use async_trading_engine.Core.Models.{
  day_ms, OrderSide, buy, sell, OrderResult, Position, RiskEventKind, consecutive_losses,
  daily_limit_hit,
}
use async_trading_engine.Risk.Budgets
use async_trading_engine.Risk.Budgets.{TrailLookup}
use async_trading_engine.Risk.LossWindows
use async_trading_engine.Risk.LossWindows.{window_pnl}
use async_trading_engine.Risk.Manager.State.{RiskManager}
use async_trading_engine.Risk.Manager.Gates.{is_limit_hit}
use async_trading_engine.Risk.Manager.Equity.{Sent, and_then, log_optional}

-- `get_position`, `seed_position` and `drop_position`
pub get_position : {F : Type 0} → RiskManager F → String → Option (Position F)
get_position m symbol = Dict.lookup symbol m.open_positions

unfoldable pub seed_position : {F : Type 0} → RiskManager F → String → Position F → RiskManager F
seed_position m symbol p = record m { open_positions = Dict.insert symbol p m.open_positions }

unfoldable pub drop_position :
    {F : Type 0} → RiskManager F → String → RiskManager F × Option (Position F)
drop_position m symbol = (
  record m { open_positions = Dict.erase symbol m.open_positions },
  Dict.lookup symbol m.open_positions,
)

unfoldable pub clear_risk_budget : {F : Type 0} → RiskManager F → String → RiskManager F
clear_risk_budget m epic = record m { budget_ledger = Budgets.clear m.budget_ledger epic }

unfoldable pub set_trailing_stop_lookup :
    {F : Type 0} → RiskManager F → Option (String → TrailLookup F) → RiskManager F
set_trailing_stop_lookup m f = record m {
  budget_ledger = Budgets.set_trailing_stop_lookup m.budget_ledger f;
}

-- `update_atr`: the buffer of a symbol keeps the last `volatility_atr_lookback` values.
unfoldable pub update_atr : {F : Type 0} → RiskManager F → String → F → RiskManager F
update_atr m symbol atr =
    let buffer = Dict.get_or symbol [] m.atr_values ++ atr ∷ [] in
    record m {
      current_atr = Dict.insert symbol atr m.current_atr;
      atr_values = Dict.insert symbol (last_n m.config.volatility_atr_lookback buffer) m.atr_values;
    }

module _ {F : Type 0} ⦃d : Float F⦄ where
  open d use {zero, le, lt, add, mul, div, neg, sum}

  unfoldable pub set_risk_budget : RiskManager F → String → F → RiskManager F
  set_risk_budget m epic gbp = record m { budget_ledger = Budgets.set m.budget_ledger epic gbp }

  -- The position that a BUY fill opens.
  unfoldable pub position_of : OrderResult F → Position F
  position_of r = record {
    symbol = r.symbol;
    side = r.side;
    entry_price = r.average_price;
    quantity = r.filled_quantity;
    current_price = r.average_price;
    unrealised_pnl = zero;
    realised_pnl = zero;
    opened_at = r.timestamp;
    updated_at = r.timestamp;
  }

  -- The two branches of `on_fill` for a filled quantity above zero.
  unfoldable pub fill_side :
      RiskManager F → OrderResult F → OrderSide → RiskManager F × Option (Position F)
  fill_side m r buy = (
    record m { open_positions = Dict.insert r.symbol (position_of r) m.open_positions },
    some (position_of r),
  )
  fill_side m r sell = (
    record m {
      open_positions = Dict.erase r.symbol m.open_positions;
      budget_ledger = Budgets.clear m.budget_ledger r.symbol;
    },
    none,
  )

  -- `on_fill`
  unfoldable pub on_fill : RiskManager F → OrderResult F → RiskManager F × Option (Position F)
  on_fill m r = if lt zero r.filled_quantity then fill_side m r r.side else (m, none)

  -- The two risk events that a close may raise.
  pub loss_pause_event : RiskManager F → String → F → Option (RiskEventKind F)
  loss_pause_event m symbol pnl =
      if lt zero m.drawdown.equity
        && leb m.config.consecutive_loss_pause m.loss_windows.consecutive_losses
      then some (consecutive_losses m.loss_windows.consecutive_losses symbol pnl)
      else none

  pub daily_limit_event : RiskManager F → ℕ → Option (RiskEventKind F)
  daily_limit_event m now =
      if lt zero m.drawdown.equity
        && is_limit_hit m now day_ms m.config.daily_loss_limit_pct m.drawdown.equity
      then some
          (daily_limit_hit (window_pnl m.loss_windows now day_ms) m.config.daily_loss_limit_pct)
      else none

  -- `on_position_closed`
  unfoldable pub on_position_closed : Bool → ℕ → RiskManager F → String → F → Sent F
  on_position_closed loop now m symbol pnl =
      let closed = record m {
        loss_windows = LossWindows.record_close m.loss_windows now pnl;
        open_positions = Dict.erase symbol m.open_positions;
      } in
      and_then (log_optional loop now closed (loss_pause_event closed symbol pnl))
        (λ logged. log_optional loop now logged (daily_limit_event logged now))

  -- Python's `sum` of quantity times entry price.
  unfoldable pub sum_exposure : Dict (Position F) → F
  sum_exposure positions =
      sum (map (λ (e : String × Position F). mul e.1.quantity e.1.entry_price) positions)

  -- `total_exposure_pct` of `get_risk_summary`
  unfoldable pub total_exposure_pct : RiskManager F → F
  total_exposure_pct m =
      if lt zero m.drawdown.equity
      then div (sum_exposure m.open_positions) m.drawdown.equity
      else zero
