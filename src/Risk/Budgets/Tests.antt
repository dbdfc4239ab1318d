-- ===== src/Risk/Budgets/Tests.antt =====
-- Runs of the risk budgets on fixed-point numbers.
use async_trading_engine.Base.{◌≡◌, refl, some, [], ◌∷◌, String}
use async_trading_engine.Base.Dict
use async_trading_engine.Base.Dict.{same_key_iff}
use async_trading_engine.Base.Fixed.{Fixed, fixed_float, whole}
use async_trading_engine.Core.Models.{Position, buy}
use async_trading_engine.Risk.Budgets.{
  RiskBudgetLedger, TrailLookup, returned, set, risk_with_trail, risk_after_lookup, live_risk_gbp,
  set_trailing_stop_lookup, new_ledger,
}

-- Two units at an entry of 100.
abbrev position : Position Fixed
position = record {
  symbol = "EPIC";
  side = buy;
  entry_price = whole 100;
  quantity = whole 2;
  current_price = whole 110;
  unrealised_pnl = whole 20;
  realised_pnl = whole 0;
  opened_at = 0;
  updated_at = 0;
}

abbrev trail_at : Fixed → String → TrailLookup Fixed
trail_at level _ = returned (some level)

-- A budget of 40, with a trailing stop at 95.
abbrev ledger : RiskBudgetLedger Fixed
ledger = record {
  budgets = ("EPIC", whole 40) ∷ [];
  trailing_stop_lookup = some (trail_at (whole 95));
}

set_up :
    set_trailing_stop_lookup (set new_ledger "EPIC" (whole 40)) (some (trail_at (whole 95)))
    ≡ ledger
unfolding set set_trailing_stop_lookup Dict.insert
set_up = refl

-- The stop moves from 80 to 95: the risk falls from 40 to 10.
trailed : live_risk_gbp ledger "EPIC" position ≡ whole 10
unfolding live_risk_gbp risk_after_lookup risk_with_trail Dict.lookup
trailed = refl
