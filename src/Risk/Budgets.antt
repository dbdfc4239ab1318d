-- ===== src/Risk/Budgets.antt =====
-- src/bot/risk/budgets.py: the money at risk per EPIC, shrunk by trailing stops.
-- The injected trailing-stop lookup is a function that may raise.
pub mod Trailing
mod Tests
use async_trading_engine.Base.{
  Bool, true, ◌||◌, Option, none, some, List, [], String, if◌then◌else◌,
}
use async_trading_engine.Base.Dict
use async_trading_engine.Base.Dict.{Dict}
use async_trading_engine.Base.Float.{Float, max}
use async_trading_engine.Core.Models.{Position}

-- A call of the lookup: it raises, or returns a level or `None`.
pub data TrailLookup (F : Type 0) : Type 0 where
  raised : TrailLookup F
  returned : Option F → TrailLookup F

pub record RiskBudgetLedger (F : Type 0) : Type 0 where
  pub budgets : Dict F
  pub trailing_stop_lookup : Option (String → TrailLookup F)

unfoldable pub set_trailing_stop_lookup :
    {F : Type 0} → RiskBudgetLedger F → Option (String → TrailLookup F) → RiskBudgetLedger F
set_trailing_stop_lookup l f = record l { trailing_stop_lookup = f }

unfoldable pub clear : {F : Type 0} → RiskBudgetLedger F → String → RiskBudgetLedger F
clear l epic = record l { budgets = Dict.erase epic l.budgets }

unfoldable pub snapshot : {F : Type 0} → RiskBudgetLedger F → Dict F
snapshot l = l.budgets

unfoldable pub load_snapshot : {F : Type 0} → RiskBudgetLedger F → Dict F → RiskBudgetLedger F
load_snapshot l budgets = record l { budgets = budgets }

module _ {F : Type 0} ⦃d : Float F⦄ where
  open d use {zero, le, lt, sub, mul, div}

  abbrev pub new_ledger : RiskBudgetLedger F
  new_ledger = record { budgets = []; trailing_stop_lookup = none }

  unfoldable pub set : RiskBudgetLedger F → String → F → RiskBudgetLedger F
  set l epic gbp = record l {
    budgets = Dict.insert epic (if lt gbp zero then zero else gbp) l.budgets;
  }

  -- The end of `live_risk_gbp`, where a trailing stop is armed at `trail_level`.
  unfoldable pub risk_with_trail : F → Position F → F → F
  risk_with_trail budget p trail_level =
      let original_stop_level = sub p.entry_price (div budget p.quantity) in
      let effective_stop_level = max original_stop_level trail_level in
      mul p.quantity (max zero (sub p.entry_price effective_stop_level))

  -- What the outcome of the lookup makes of the budget.
  unfoldable pub risk_after_lookup : F → Position F → TrailLookup F → F
  risk_after_lookup budget p raised = budget
  risk_after_lookup budget p (returned none) = budget
  risk_after_lookup budget p (returned (some trail_level)) = risk_with_trail budget p trail_level

  unfoldable pub live_risk_gbp : RiskBudgetLedger F → String → Position F → F
  live_risk_gbp l epic p =
      let budget = Dict.get_or epic zero l.budgets in
      if le budget zero then zero else elim l.trailing_stop_lookup [
        | none ↦ budget
        | some lookup ↦
            if le p.quantity zero || le p.entry_price zero
            then budget
            else risk_after_lookup budget p (lookup epic)
      ]
