-- ===== src/Strategy/Rerank/Tests.antt =====
-- Runs of a rerank on fixed-point numbers, with a connection that answers from a list.
use async_trading_engine.Base.{
  ◌+◌, ◌≤◌, ◌≡◌, refl, true, false, none, some, List, [], ◌∷◌, arith, if◌then◌else◌,
}
use async_trading_engine.Base.Fixed.{Fixed, fixed_float, whole}
use async_trading_engine.Base.Int.{pos, negsuc}
use async_trading_engine.Base.Dict
use async_trading_engine.Base.Dict.{Dict}
use async_trading_engine.Data.Symbols.{member, universe, find_symbol, fx, fx_sector}
use async_trading_engine.Data.Candles.{Candle}
use async_trading_engine.Data.Store.{DataStore}
use async_trading_engine.Execution.Script.{Script, scripted, statistics}
use async_trading_engine.Execution.Client.{Payload}
use async_trading_engine.Execution.Context.{Bot, find_signal}
use async_trading_engine.Execution.QuoteScale.{ig_quote_scale, ig_pip_value, value_of, pip_literal}
use async_trading_engine.Execution.Client.Openings.{openings}
use async_trading_engine.Execution.Close.Tests.{position, by_day}
use async_trading_engine.Execution.Close.Reconcile.{request_close}
use async_trading_engine.Execution.Close.{close_ig_position}
use async_trading_engine.Sentiment.Aggregator.Tests.{total}
use async_trading_engine.Strategy.Rerank.{
  RerankConfig, Runner, passes_gate, apply_sentiment_gate, select_phase, index_signals,
  rerank_select, selectable, rerank_apply_sentiment_gate,
}
use async_trading_engine.Strategy.TopK.{AssetSignal, attributes_of}
use async_trading_engine.Strategy.TopK.Selection.{
  select_top_k, score, eligible, insert_ranked, rank, material,
}
use async_trading_engine.Strategy.Correlation.{
  select_uncorrelated, select_from, place, find_blocker, exceeds, correlation,
}
use async_trading_engine.Strategy.TakeProfit.State.{TakeProfitManager, default_config}
use async_trading_engine.Strategy.TakeProfit.Signal.{is_unhealthy}
use async_trading_engine.Strategy.TakeProfit.Tests.{entered}
use async_trading_engine.Strategy.Rerank.Exits.{is_closed, decay_exit}
use async_trading_engine.Strategy.Rerank.Shut.{decay_exit-shut}
use async_trading_engine.TradingHours.Schedule.{
  is_market_open, class_of, open_at, forex_open, us_equity_open,
}
use async_trading_engine.TradingHours.Calendar.{is_us_equity_holiday, contains_day}
use async_trading_engine.Strategy.Rerank.Gate.{select_phase-eligible}
use async_trading_engine.Strategy.Rerank.Pass.{run_rerank_once}
use async_trading_engine.Strategy.Rerank.Safe.{openings-run_rerank_once}
use async_trading_engine.Strategy.Rerank.Dispatch.{
  stop_pct_of, loss_pct_of, check_exit_and_entry, on_new_candle,
}
use async_trading_engine.Strategy.Rerank.Dispatch.Held.{
  openings-on_new_candle, check_exit_and_entry-stop,
}
use async_trading_engine.Strategy.Rerank.Schedule.{
  pass_starts, after_pass, spaced_starts, pass_starts-spaced, pass_starts-zero,
}
use async_trading_engine.Strategy.TopK.Tests.{signal, strategy}

abbrev config : RerankConfig Fixed
config = record {
  topk_exclude_from_selection = "XAU/USD" ∷ [];
  sentiment_enabled = true;
  sentiment_gate_enabled = true;
  sentiment_gate_long_threshold = whole 0;
  sentiment_gate_short_threshold = whole 0;
  tp_sentiment_reversal_enabled = true;
}

abbrev runner : Runner Fixed (Script (Payload Fixed))
runner = record { bot = by_day; strategy = strategy; scores = none }

abbrev candles : DataStore Fixed
candles = record { buffer_size = 2; candles = [] }

abbrev candle : Candle Fixed
candle = record {
  symbol = "EUR/USD";
  timestamp = 0;
  open_price = whole 1;
  high = whole 1;
  low = whole 1;
  close = whole 1;
  volume = whole 0;
  is_confirmed = true;
}

-- The first pass takes two intervals and a half, and the next starts at once.
overrun : pass_starts 10 0 0 (25 ∷ 4 ∷ 10 ∷ 1 ∷ []) ≡ 0 ∷ 25 ∷ 35 ∷ 45 ∷ []
unfolding pass_starts after_pass
overrun = refl

pass_starts-spaced_example : pass_starts 10 0 0 (25 ∷ 4 ∷ 10 ∷ []) ≡ 0 ∷ 25 ∷ 35 ∷ []
unfolding spaced_starts
pass_starts-spaced_example = pass_starts-spaced 10 0 (25 ∷ 4 ∷ 10 ∷ []) (omega arith)

stopped_at_zero : pass_starts 0 7 7 (3 ∷ 4 ∷ []) ≡ 7 ∷ []
stopped_at_zero = pass_starts-zero 7 3 (4 ∷ [])

openings-run_rerank_once_example :
    openings (run_rerank_once scripted total (λ r. ([], r)) config runner).runner.bot.net
    ≤ 0 + openings by_day.net
openings-run_rerank_once_example =
    openings-run_rerank_once scripted total (λ r. ([], r)) config runner 0 (λ r. omega arith)

openings-on_new_candle_example :
    openings (on_new_candle scripted statistics (λ b. b) candles candle by_day).1.net
    ≤ openings by_day.net
unfolding Dict.lookup
openings-on_new_candle_example =
    openings-on_new_candle scripted statistics (λ b. b) candles candle position by_day refl

-- At half the entry price, the loss is half of it.
check_exit_and_entry-stop_example :
    let (finished, stopped) =
      check_exit_and_entry scripted statistics
        (λ b. b)
        "EUR/USD"
        (pos 5_500)
        (some position)
        by_day in
    (finished ≡ true)
    × (request_close scripted "EUR/USD" by_day ≡ (
        if is_closed (close_ig_position scripted "EUR/USD" position by_day).0
        then record stopped { alerts = "EUR/USD" ∷ stopped.alerts }
        else stopped))
unfolding Dict.lookup loss_pct_of stop_pct_of find_signal ig_quote_scale ig_pip_value value_of
    universe find_symbol fx fx_sector pip_literal
check_exit_and_entry-stop_example =
    check_exit_and_entry-stop scripted statistics (λ b. b) "EUR/USD" (pos 5_500) (pos 5_000)
      position by_day refl refl refl

-- A falling sentiment blocks a long.
gated :
    apply_sentiment_gate
      ("A" ∷ "B" ∷ [])
      (("A", whole 1) ∷ ("B", whole 1) ∷ [])
      (("A", whole 1) ∷ ("B", negsuc 9_999) ∷ [])
      (whole 0)
      (whole 0)
    ≡ ("A" ∷ [], "B" ∷ [])
unfolding apply_sentiment_gate passes_gate Dict.lookup
gated = refl

abbrev signals : List (AssetSignal Fixed)
signals = signal "XAU/USD" 90 true ∷ signal "EUR/USD" 50 true ∷ signal "BAC" 40 true ∷ []

-- At Monday noon metal is excluded and the US market is shut.
eur_usd_selected :
    member "EUR/USD" (select_phase scripted config signals runner).bot.topk_selected ≡ true
unfolding select_phase rerank_select selectable rerank_apply_sentiment_gate select_top_k score
    eligible insert_ranked rank material select_uncorrelated select_from place find_blocker exceeds
    correlation Dict.lookup is_market_open class_of open_at forex_open universe find_symbol fx
    fx_sector us_equity_open is_us_equity_holiday contains_day
eur_usd_selected = refl

select_phase-eligible_example : member "EUR/USD" config.topk_exclude_from_selection ≡ false
select_phase-eligible_example =
    (select_phase-eligible scripted config signals runner "EUR/USD" eur_usd_selected).0

abbrev manager : TakeProfitManager Fixed
manager = record { config = default_config; pred_len = 120; positions = ("BAC", entered) ∷ [] }

abbrev over_noon : Bot Fixed (Script (Payload Fixed))
over_noon = record by_day { tp_manager = some manager }

outlives_the_night :
    let r = decay_exit scripted config [] signals "BAC" over_noon in
    (r.0 ≡ true) × (r.1 ≡ record over_noon { tp_manager = r.1.tp_manager })
unfolding is_market_open class_of open_at us_equity_open is_us_equity_holiday contains_day universe
    find_symbol Dict.lookup Dict.insert index_signals attributes_of is_unhealthy
outlives_the_night =
    decay_exit-shut scripted config [] signals "BAC" over_noon manager entered
      (attributes_of (signal "BAC" 40 true)) refl refl refl refl
      (refl, refl, omega arith, omega arith) refl
