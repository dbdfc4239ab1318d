-- ===== src/Risk/Sizing.antt =====
-- src/bot/risk/sizing.py: the stake in pounds per point for a risk budget.
use mathlib.Core.Option
use async_trading_engine.Base.{◌||◌, Option, some, if◌then◌else◌}
use async_trading_engine.Base.Float.{Float, max, div?}

module _ {F : Type 0} ⦃d : Float F⦄ where
  open d use {zero, le, add, mul, div, round2}

  -- The stop distance in points with the slippage buffer.
  unfoldable pub effective_stop_pts : F → F → F → F → F
  effective_stop_pts entry_price stop_pct pip_value slippage_buffer_pts =
      add (div (mul entry_price stop_pct) pip_value) (max zero slippage_buffer_pts)

  -- `compute_ig_size`; `none` is the `ZeroDivisionError` of a stop distance that underflows.
  unfoldable pub compute_ig_size : F → F → F → F → F → F → Option F
  compute_ig_size equity_gbp risk_pct entry_price stop_pct pip_value slippage_buffer_pts =
      if le equity_gbp zero
        || le risk_pct zero
        || le entry_price zero
        || le stop_pct zero
        || le pip_value zero
      then some zero
      else Option.map round2 (
          div? (mul equity_gbp risk_pct)
            (effective_stop_pts entry_price stop_pct pip_value slippage_buffer_pts))
