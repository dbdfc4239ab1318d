-- ===== src/Risk/Margin/Tests.antt =====
-- Runs of the margin breaker on fixed-point numbers.
use async_trading_engine.Base.{ℕ, ◌≡◌, refl, true, List, [], ◌∷◌}
use async_trading_engine.Base.Fixed.{Fixed, fixed_float, whole}
use async_trading_engine.Core.Models.{AccountUpdate, MarginCircuitState}
use async_trading_engine.Risk.Config.{RiskConfig, default_config}
use async_trading_engine.Risk.Margin.{
  MarginCircuitBreaker, new_breaker, classify, ratio_of, update, transition_messages, alarms,
}
use async_trading_engine.Risk.Margin.Edges.{run, shutdowns, entries, shutdowns-run}

abbrev config : RiskConfig Fixed
config = default_config

abbrev breaker : MarginCircuitBreaker Fixed
breaker = new_breaker

-- A push with margin 1000 and the given equity.
abbrev push : ℕ → AccountUpdate Fixed
push equity = record {
  timestamp = 0;
  equity = whole equity;
  margin_required = whole 1000;
  available_to_deal = whole 0;
  unrealised_pnl = whole 0;
}

-- Down to the floor, further down, up and down again.
abbrev pushes : List (ℕ × AccountUpdate Fixed)
pushes = (1, push 700) ∷ (2, push 500) ∷ (3, push 400) ∷ (4, push 900) ∷ (5, push 300) ∷ []

two_shutdowns : shutdowns (run config true breaker pushes).1 ≡ 2
unfolding shutdowns run update classify ratio_of transition_messages alarms
two_shutdowns = refl

shutdowns-run_example :
    shutdowns (run config true breaker pushes).1 ≡ entries config MarginCircuitState.normal pushes
shutdowns-run_example = shutdowns-run config breaker pushes
