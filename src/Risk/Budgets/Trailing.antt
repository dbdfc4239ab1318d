-- ===== src/Risk/Budgets/Trailing.antt =====
-- How a trailing stop shrinks the money at risk.
use async_trading_engine.Base.{◌≡◌, true, arith}
use async_trading_engine.Base.Float.{Float, IsOrdered, IsNumber, max}
use async_trading_engine.Core.Models.{Position}
use async_trading_engine.Risk.Budgets.{risk_with_trail}

module _ {F : Type 0} ⦃d : Float F⦄ (laws : IsOrdered F) where
  open d use {zero, le, lt, sub, mul, div}
  open laws use {
    le_trans, le_of_lt, le_of_not_lt, le_of_not_le, not-lt_of_le, number_of_le, zero-IsNumber,
    sub_antitone, mul_mono, mul-nonneg, mul-zero-le, sub-nonpos,
  }

  -- The stop level that is in force under a trailing stop at `trail`.
  abbrev stop_level : F → Position F → F → F
  stop_level budget p trail = max (sub p.entry_price (div budget p.quantity)) trail

  -- Once the trailing stop is at the entry price or above, no money is at risk.
  pub risk_with_trail_locked :
      (budget : F) (p : Position F) (trail : F)
      → le p.entry_price trail ≡ true
      → IsNumber (sub p.entry_price (div budget p.quantity))
      → IsNumber (mul p.quantity zero)
      → le (risk_with_trail budget p trail) zero ≡ true
  unfolding risk_with_trail
  risk_with_trail_locked budget p trail h n m = ground (
    arith,
    number_of_le p.entry_price trail h,
    n,
    m,
    mul-zero-le p.quantity m,
    le_of_not_lt trail (sub p.entry_price (div budget p.quantity)),
    le_trans p.entry_price trail (sub p.entry_price (div budget p.quantity)),
    sub-nonpos p.entry_price trail,
    sub-nonpos p.entry_price (sub p.entry_price (div budget p.quantity)),
  )
