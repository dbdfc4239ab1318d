-- ===== src/Core/Wiring/Tests.antt =====
-- A run of the wiring on fixed-point numbers.
use async_trading_engine.Base.{◌≡◌, refl, true, false, some, none, List, [], ◌∷◌, String}
use async_trading_engine.Base.Dict
use async_trading_engine.Base.Dict.{Dict}
use async_trading_engine.Base.Fixed.{Fixed, fixed_float, whole, Fixed-IsOrdered}
use async_trading_engine.Base.Int.{pos}
use async_trading_engine.Core.Models.{Position, buy}
use async_trading_engine.Core.Wiring.{candle_for, trail_lookup}
use async_trading_engine.Core.Wiring.Locked.{live_risk_gbp-locked}
use async_trading_engine.Risk.Budgets.{RiskBudgetLedger, live_risk_gbp}
use async_trading_engine.Strategy.TakeProfit.State.{
  TakeProfitManager, default_config, get_trailing_stop,
}
use async_trading_engine.Strategy.TakeProfit.Price.Ratchet.{Tick, evaluate_prices}

abbrev ledger : RiskBudgetLedger Fixed
ledger = record { budgets = ("EPIC", whole 40) ∷ []; trailing_stop_lookup = none }

abbrev epics : Dict String
epics = ("EPIC", "A") ∷ []

abbrev position : Position Fixed
position = record {
  symbol = "EPIC";
  side = buy;
  entry_price = whole 100;
  quantity = whole 2;
  current_price = whole 110;
  unrealised_pnl = whole 20;
  realised_pnl = whole 0;
  opened_at = 0;
  updated_at = 0;
}

-- The stop of "A" is at 100.1.
abbrev manager : TakeProfitManager Fixed
manager = record {
  config = default_config;
  pred_len = 24;
  positions =
      (
        "A",
        record {
          symbol = "A";
          entry_price = whole 100;
          entry_mean_return = pos 200;
          entry_stop_pct = pos 100;
          peak_price = whole 101;
          opened_at_ms = 0;
          signal_decay_strikes = 0;
          topk_miss_strikes = 0;
          breakeven_armed = true;
          trail_armed = false;
          current_trailing_stop = some (pos 1_001_000);
          predicted_mfe_pct = none;
          predicted_mae_pct = none;
          predicted_peak_bar = none;
          bar_interval_ms = 3_600_000;
        },
      )
      ∷ [];
}

abbrev ticks : List (Tick Fixed)
ticks = record { symbol = "A"; price = whole 103; now = 20 } ∷ []

live_risk_gbp-locked_example :
    fixed_float.le
      (live_risk_gbp
        (record ledger {
          trailing_stop_lookup = some (trail_lookup epics (evaluate_prices manager ticks));
        })
        "EPIC"
        position)
      (whole 0)
    ≡ true
unfolding get_trailing_stop candle_for Dict.lookup
live_risk_gbp-locked_example =
    live_risk_gbp-locked Fixed-IsOrdered ledger epics manager ticks "EPIC" position refl refl refl
      refl refl
