-- ===== src/Execution/Script.antt =====
-- A connection that answers from a list of replies and then drops every request, for the runs.
use async_trading_engine.Base.{ℕ, true, false, none, some, List, [], ◌∷◌, String}
use async_trading_engine.Execution.Http.{Reply, answered, dropped, Link, Net}
use async_trading_engine.Execution.Client.{Payload}
use async_trading_engine.Execution.Context.{Bot}
use async_trading_engine.Base.Int.{pos}
use async_trading_engine.Base.Float.{Float}
use async_trading_engine.Base.Fixed.{Fixed, fixed_float, whole}
use async_trading_engine.Risk.Config.{default_config}
use async_trading_engine.Risk.Manager.State.{new_manager}
use async_trading_engine.Risk.SpreadMonitor.{Statistics}
use async_trading_engine.Strategy.TakeProfit.State as TakeProfit

abbrev pub Script : Type 0 → Type 0
Script J = List (Reply J)

-- The next reply, with what is left of the script.
abbrev pub next_reply : {J : Type 0} → Script J → Reply J × Script J
next_reply [] = (dropped, [])
next_reply (reply ∷ rest) = (reply, rest)

-- The clock stands on 1970-01-05 12:00, a Monday.
abbrev pub scripted : {B J : Type 0} → Link (Script J) B J
scripted = record {
  send = λ q script. next_reply script;
  cst = λ script. "token";
  refreshing = λ script. false;
  refresh_session = λ script. (true, script);
  clock = λ script. 388_800_000;
}

abbrev pub scripted_net : {B J : Type 0} → Script J → Net (Script J) B J
scripted_net script = record { world = script; log = [] }

abbrev pub response : {J : Type 0} → ℕ → String → J → Reply J
response status code payload =
    answered (record { status = status; text = ""; error_code = code; payload = some payload })

-- A body with no fields.
abbrev pub empty_payload : {F : Type 0} → Payload F
empty_payload = record {
  deal_reference = none;
  deal_status = none;
  epic = none;
  direction = none;
  reason = none;
  deal_id = none;
  size = none;
  level = none;
  positions = [];
  transactions = [];
  accounts = [];
  market_status = none;
  min_deal_size = none;
}

-- A bot without positions that has selected EUR/USD.
abbrev pub scripted_bot : Script (Payload Fixed) → Bot Fixed (Script (Payload Fixed))
scripted_bot script = record {
  net = scripted_net script;
  account_id = "ACC";
  risk_manager = new_manager default_config;
  spread_monitor = none;
  tp_manager = some (record { config = TakeProfit.default_config; pred_len = 120; positions = [] });
  positions = [];
  cash = whole 0;
  open_pnl = whole 0;
  ig_deal_ids = [];
  candle_epic_map = ("EUR/USD", "CS.D.EURUSD.TODAY.IP") ∷ [];
  epic_to_candle = ("CS.D.EURUSD.TODAY.IP", "EUR/USD") ∷ [];
  topk_scanned = true;
  topk_selected = "EUR/USD" ∷ [];
  topk_signals = [];
  path_signals = [];
  topk_min_stop_pct = pos 50;
  latest_close = [];
  alerted_orphan_deals = [];
  alerts = [];
  outbox = [];
}

abbrev pub statistics : Statistics Fixed
statistics = record { fmean = Float.mean fixed_float; stdev = λ xs. whole 1 }
