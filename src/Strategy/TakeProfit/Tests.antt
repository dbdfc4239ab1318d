-- ===== src/Strategy/TakeProfit/Tests.antt =====
-- Runs of the exit rules on fixed-point numbers, with the default configuration.
use async_trading_engine.Base.{◌≡◌, refl, true, false, none, some, List, [], ◌∷◌, arith, leb}
use async_trading_engine.Base.Dict
use async_trading_engine.Base.Int.{pos, negsuc}
use async_trading_engine.Base.Fixed.{Fixed, fixed_float, whole, Fixed-IsOrdered}
use async_trading_engine.Strategy.TakeProfit.State.{
  sentiment_reversal, holding, leave, PositionTpState, TakeProfitManager, SignalAttributes,
  default_config, new_position, register_position, deregister_position, get_trailing_stop,
}
use async_trading_engine.Strategy.TakeProfit.Price.{
  raise_stop, arm, check_trailing_stop, observe_price, apply_rules, evaluate_state, evaluate_price,
}
use async_trading_engine.Strategy.TakeProfit.Price.Ratchet.{
  Tick, is_at_least, evaluate_prices, evaluate_prices-ratchet,
}
use async_trading_engine.Strategy.TakeProfit.Price.Rules.{
  reason_for, Decides, evaluate_price-reason,
}
use async_trading_engine.Strategy.TakeProfit.Signal.{
  is_unhealthy, judge_signal, evaluate_signal, evaluate_sentiment, count_strikes,
}
use async_trading_engine.Strategy.TakeProfit.Signal.Strikes.{judge_signals, judge_signals_strikes}
use async_trading_engine.Strategy.TakeProfit.Snapshot.{snapshot, restore, restore-snapshot}

abbrev strong : SignalAttributes Fixed
strong = record {
  mean_return = some (pos 200);
  stop_pct = some (pos 100);
  direction_confidence = some (pos 9000);
  uncertainty = some (whole 1);
}

abbrev weak : SignalAttributes Fixed
weak = record strong { direction_confidence = some (pos 1000) }

abbrev start : TakeProfitManager Fixed
start = record { config = default_config; pred_len = 24; positions = [] }

-- An entry at 100 with a stop of 1%.
abbrev pub entered : PositionTpState Fixed
entered = record {
  symbol = "A";
  entry_price = whole 100;
  entry_mean_return = pos 200;
  entry_stop_pct = pos 100;
  peak_price = whole 100;
  opened_at_ms = 0;
  signal_decay_strikes = 0;
  topk_miss_strikes = 0;
  breakeven_armed = false;
  trail_armed = false;
  current_trailing_stop = none;
  predicted_mfe_pct = none;
  predicted_mae_pct = none;
  predicted_peak_bar = none;
  bar_interval_ms = 3_600_000;
}

abbrev manager : TakeProfitManager Fixed
manager = record start { positions = ("A", entered) ∷ [] }

registered : register_position start "A" (whole 100) strong 0 none 3_600_000 ≡ manager
unfolding register_position new_position Dict.insert
registered = refl

deregistered : deregister_position manager "A" ≡ start
unfolding deregister_position Dict.erase
deregistered = refl

-- At 101 the stop goes to 100.1, the entry price and the buffer.
armed : get_trailing_stop (evaluate_price manager "A" (whole 101) 10).0 "A" ≡ some (pos 1_001_000)
unfolding evaluate_price evaluate_state apply_rules check_trailing_stop arm raise_stop observe_price
    get_trailing_stop Dict.lookup Dict.insert
armed = refl

reversed :
    evaluate_sentiment
      (record manager { config = record default_config { sentiment_reversal_enabled = true } })
      "A"
      (record { sentiment = some (negsuc 4999); confidence = some (pos 7000) })
    ≡ leave sentiment_reversal none
unfolding evaluate_sentiment Dict.lookup
reversed = refl

one_strike : (evaluate_signal manager "A" (some weak) true).1 ≡ holding
unfolding evaluate_signal judge_signal is_unhealthy count_strikes Dict.lookup
one_strike = refl

abbrev protected : TakeProfitManager Fixed
protected = record manager {
  positions =
      ("A", record entered { breakeven_armed = true; current_trailing_stop = some (pos 1_001_000) })
      ∷ [];
}

abbrev ticks : List (Tick Fixed)
ticks =
    record { symbol = "A"; price = whole 103; now = 20 }
    ∷ record { symbol = "B"; price = whole 7; now = 21 }
    ∷ record { symbol = "A"; price = whole 102; now = 22 }
    ∷ []

evaluate_prices-ratchet_example :
    is_at_least (whole 100) (get_trailing_stop (evaluate_prices protected ticks) "A") ≡ true
unfolding get_trailing_stop Dict.lookup
evaluate_prices-ratchet_example =
    evaluate_prices-ratchet Fixed-IsOrdered (whole 100) protected ticks "A" refl

decided_by_rules :
    let next = (evaluate_state protected.config 24 entered (whole 103) 20).0 in
    (Dict.lookup "A" (evaluate_price manager "A" (whole 103) 20).0.positions ≡ some next)
    × Decides
        (reason_for default_config 24 next (whole 103) 20)
        (evaluate_price manager "A" (whole 103) 20).1
unfolding Dict.lookup
decided_by_rules = evaluate_price-reason manager "A" entered (whole 103) 20 refl refl

judge_signals_strikes_example :
    (judge_signals default_config entered ((none, true) ∷ (some weak, true) ∷ [])).1 ≡ leb 2 2
unfolding is_unhealthy
judge_signals_strikes_example =
    judge_signals_strikes default_config entered ((none, true) ∷ (some weak, true) ∷ [])
      (refl, (refl, tt)) (omega arith) (omega arith)

restore-snapshot_example : restore start (snapshot protected) ≡ protected
restore-snapshot_example = restore-snapshot protected start refl refl
