-- ===== src/Strategy/TakeProfit/Snapshot.antt =====
-- `snapshot` and `restore`. The stored JSON is a dict per symbol; a field of it that is missing, or
-- null where that counts as missing, is `none`.
use async_trading_engine.Base.{
  ℕ, ◌≡◌, refl, Bool, false, Option, none, some, [], ◌∷◌, String, ap, arith,
}
use async_trading_engine.Base.Dict.{Dict}
use async_trading_engine.Base.Float.{Float}
use async_trading_engine.Core.Models.{hour_ms}
use async_trading_engine.Strategy.TakeProfit.State.{PositionTpState, TakeProfitManager, attribute}

pub record RawState (F : Type 0) : Type 0 where
  pub symbol : Option String
  pub entry_price : Option F
  pub entry_mean_return : Option F
  pub entry_stop_pct : Option F
  pub peak_price : Option F
  pub opened_at_ms : Option ℕ
  pub signal_decay_strikes : Option ℕ
  pub topk_miss_strikes : Option ℕ
  pub breakeven_armed : Option Bool
  pub trail_armed : Option Bool
  pub current_trailing_stop : Option F
  pub predicted_mfe_pct : Option F
  pub predicted_mae_pct : Option F
  pub predicted_peak_bar : Option ℕ
  pub bar_interval_ms : Option ℕ

-- `{}`, which stands for a stored value that is no dict.
abbrev pub empty_raw : {F : Type 0} → RawState F
empty_raw = record {
  symbol = none;
  entry_price = none;
  entry_mean_return = none;
  entry_stop_pct = none;
  peak_price = none;
  opened_at_ms = none;
  signal_decay_strikes = none;
  topk_miss_strikes = none;
  breakeven_armed = none;
  trail_armed = none;
  current_trailing_stop = none;
  predicted_mfe_pct = none;
  predicted_mae_pct = none;
  predicted_peak_bar = none;
  bar_interval_ms = none;
}

-- `raw if isinstance(raw, dict) else {}`
abbrev pub dict_or_empty : {F : Type 0} → Option (RawState F) → RawState F
dict_or_empty none = empty_raw
dict_or_empty (some raw) = raw

pub store_state : {F : Type 0} → PositionTpState F → RawState F
store_state s = record {
  symbol = some s.symbol;
  entry_price = some s.entry_price;
  entry_mean_return = some s.entry_mean_return;
  entry_stop_pct = some s.entry_stop_pct;
  peak_price = some s.peak_price;
  opened_at_ms = some s.opened_at_ms;
  signal_decay_strikes = some s.signal_decay_strikes;
  topk_miss_strikes = some s.topk_miss_strikes;
  breakeven_armed = some s.breakeven_armed;
  trail_armed = some s.trail_armed;
  current_trailing_stop = s.current_trailing_stop;
  predicted_mfe_pct = s.predicted_mfe_pct;
  predicted_mae_pct = s.predicted_mae_pct;
  predicted_peak_bar = s.predicted_peak_bar;
  bar_interval_ms = some s.bar_interval_ms;
}

pub store_states : {F : Type 0} → Dict (PositionTpState F) → Dict (Option (RawState F))
store_states [] = []
store_states ((symbol, s) ∷ rest) = (symbol, some (store_state s)) ∷ store_states rest

pub snapshot : {F : Type 0} → TakeProfitManager F → Dict (Option (RawState F))
snapshot m = store_states m.positions

module _ {F : Type 0} ⦃d : Float F⦄ where
  open d use {zero}

  pub load_raw : String → RawState F → PositionTpState F
  load_raw symbol r = record {
    symbol = attribute r.symbol symbol;
    entry_price = attribute r.entry_price zero;
    entry_mean_return = attribute r.entry_mean_return zero;
    entry_stop_pct = attribute r.entry_stop_pct zero;
    peak_price = attribute r.peak_price zero;
    opened_at_ms = attribute r.opened_at_ms 0;
    signal_decay_strikes = attribute r.signal_decay_strikes 0;
    topk_miss_strikes = attribute r.topk_miss_strikes 0;
    breakeven_armed = attribute r.breakeven_armed false;
    trail_armed = attribute r.trail_armed false;
    current_trailing_stop = r.current_trailing_stop;
    predicted_mfe_pct = r.predicted_mfe_pct;
    predicted_mae_pct = r.predicted_mae_pct;
    predicted_peak_bar = r.predicted_peak_bar;
    bar_interval_ms = attribute r.bar_interval_ms hour_ms;
  }

  pub load_raws : Dict (Option (RawState F)) → Dict (PositionTpState F)
  load_raws [] = []
  load_raws ((symbol, raw) ∷ rest) = (symbol, load_raw symbol (dict_or_empty raw)) ∷ load_raws rest

  pub restore : TakeProfitManager F → Dict (Option (RawState F)) → TakeProfitManager F
  restore m stored = record m { positions = load_raws stored }

  load_raws-store_states :
      (positions : Dict (PositionTpState F)) → load_raws (store_states positions) ≡ positions
  unfolding load_raws load_raw store_states store_state
  load_raws-store_states [] = refl
  load_raws-store_states ((symbol, s) ∷ rest) = ap ((symbol, s) ∷◌) (load_raws-store_states rest)

  -- A manager that restores the snapshot of another one with the same configuration, in whatever
  -- state it was itself, is that other manager: each armed trail, peak and strike count included.
  pub restore-snapshot :
      (m fresh : TakeProfitManager F)
      → fresh.config ≡ m.config
      → fresh.pred_len ≡ m.pred_len
      → restore fresh (snapshot m) ≡ m
  unfolding restore snapshot
  restore-snapshot m fresh c p = ground (arith, load_raws-store_states m.positions, c, p)
