-- ===== src/Lib.antt =====
-- A verification library for the trading bot under src/bot.
--
-- The bot ranks a universe of symbols, opens spread bets for the best of them, and closes them when
-- an exit rule of the take-profit manager fires. Each order passes the risk manager, which keeps its
-- own view of equity, open positions and losses. The risk manager reads the trailing stops of the
-- take-profit manager through a lookup. The parts that are modelled, and the files:
--   Base: lists, integers, dicts and an interface for Python's floats.
--   Core/Models: core/models.py and core/time_constants.py.
--   Core/EventBus: core/event_bus.py.
--   Core/Handlers: the handlers of core/event_wiring.py for account pushes, the margin breaker, risk
--     alerts and the shutdown.
--   Core/Wiring: the trailing-stop lookup of core/lifecycle.py, with `candle_for` of
--     core/bot_context.py.
--   Data/Symbols: data/eodhd_symbols.py, the universe.
--   Data/Candles: data/ig_candle_aggregator.py, `ingest_tick`.
--   Data/Store: data/store.py, the buffers of candles.
--   Data/SignalHistory: data/signal_history_store.py, the resolver and the reads.
--   TradingHours: trading_hours.py: Calendar the parts of a datetime, Schedule the weekly schedules
--     and the check before an entry, Scan the two searches.
--   Execution/Http: execution/ig_http.py, with the loop of attempts in Retry. Execution/Client:
--     execution/ig_client.py, with the calls that send requests in Calls. Execution/Context:
--     core/bot_context.py and the fill handlers of core/event_wiring.py. Execution/Entry:
--     execution/entry_executor.py, with the chain of gates in Attempt. Execution/Close:
--     execution/ig_close.py, with the reconciliation in Reconcile. Execution/QuoteScale:
--     execution/ig_quote_scale.py. Execution/Script: a connection that answers from a list, for runs.
--   Strategy/TopK: strategy/topk_strategy.py, with `select_top_k` in Selection.
--   Strategy/Rerank: strategy/rerank_runner.py, and the sentiment gate of execution/ig_convert.py: the
--     parent has the selection, Exits the exits of a rerank, Pass the order of a pass, Schedule its
--     deadlines, History the rows that it writes, Dispatch the logic on each candle.
--   Sentiment: sentiment/models.py, Sentiment/Aggregator: sentiment/aggregator.py,
--     Sentiment/Engine: sentiment/engine.py, a scan.
--   Strategy/Correlation: strategy/correlation.py, the selection on a given matrix.
--   Strategy/TakeProfit: strategy/take_profit.py: State has the configuration and the position
--     state, Price `evaluate_price`, Signal `evaluate_signal` and `evaluate_sentiment`, Snapshot
--     the persistence.
--   Risk/Config: risk/risk_config.py. Risk/Drawdown: risk/drawdown.py.
--   Risk/LossWindows: risk/loss_windows.py. Risk/Fscs: risk/fscs.py. Risk/Margin: risk/margin.py.
--   Risk/Budgets: risk/budgets.py. Risk/Sectors: risk/sectors.py. Risk/Sizing: risk/sizing.py.
--   Risk/IgMargin: risk/ig_margin.py. Risk/SpreadMonitor: risk/spread_monitor.py.
--   Risk/ScaleGuard: risk/scale_guard.py. Risk/Funding: risk/funding.py.
--   Risk/Manager: risk/risk_manager.py, which composes the trackers: State has its fields and its
--     ledger of events, Gates and Evaluate the order gates and `evaluate_ig_order`, Equity the
--     account marks, Positions the fills and closes, Persistence `snapshot_state` and `load_state`.
-- A file's child modules hold what is proved about it; a module named Tests holds runs.
--
-- How the code is read:
--   * A method is a function from the old state to the new one, with what it returns and sends. The
--     clock readings that it makes are arguments, in the order of the readings.
--   * A float is a value of a type `F` with the interface `Float`; theorems on order take the laws
--     `IsOrdered`, which hold of IEEE-754 doubles with NaN and the infinities. The laws are met by
--     the instance in Base/Fixed, fixed-point numbers with four decimals, on which the tests run.
--   * A division by zero that Python would refuse is `none`.
--   * Python's `sum`, which compensates the rounding, is an operation of the interface `Float`; a
--     loop that adds with `+=` is the fold of `add`.
--   * Timestamps and counts are natural numbers. `ts < now - w` is written `ts + w < now`.
--   * A dict is an association list in insertion order with text keys.
--   * Callbacks and emissions on the event bus are results. Whether an event loop runs is an
--     argument, since an emission without one is dropped.
--   * A text in a decision or an event is the data that is formatted into it.
--   * The trailing-stop lookup and the predicate for the maintenance window, which are injected into
--     the risk manager, are arguments.
--   * IG's REST service is a parameter: a record `Link` with what a request returns, the session's
--     tokens and their refresh, and the clock, over a type of states. Nothing is assumed of it. Each
--     request is kept in a log, which the theorems on orders count. The decoded bodies are records of
--     the fields that are read. A call returns a value or the exception that it raises.
--   * An entry holds the lock and a close runs on its own: what other tasks change while a request is
--     under way stays inside the state of the connection. What they do before an entry gets the lock
--     is a parameter. The clock stands still between two requests.
--   * The scan of the model is a parameter of a rerank, with what other tasks do while it runs.
--     Gemini's answers, what the agents return, and Python's `sum` in the sentiment code and the
--     history rows are parameters. A table of SQLite is the list of its rows.
--   * A datetime is its microseconds since the epoch, in UTC. `statistics` and numpy are parameters.
-- Loops are structural, but for the forward search for the next opening, which goes by minutes on
-- fuel: 10,081 rounds, one more than the minutes of the seven days after which the code gives up. The
-- backward search is stated for times at least eight days after the epoch. The loop of attempts of a
-- request is structural on the attempts that are left, of which the code allows seven.
--
-- Not modelled: log output, the dashboard's status file, login and the session's token file, SQLite and
-- file storage, model inference, the sentiment agents, the feeds and start-up. A handler of the event
-- bus runs to its end before the next one starts. The token buckets of the HTTP layer only delay
-- requests and are left out, as is the jitter of its delays.
pub mod Base
pub mod Core
pub mod Data
pub mod Execution
pub mod Risk
pub mod Sentiment
pub mod Strategy
pub mod TradingHours
