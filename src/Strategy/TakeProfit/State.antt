-- ===== src/Strategy/TakeProfit/State.antt =====
-- The configuration and the state of `TakeProfitManager`.
use async_trading_engine.Base.{ℕ, Bool, true, false, Option, none, some, String}
use async_trading_engine.Base.Dict
use async_trading_engine.Base.Dict.{Dict}
use async_trading_engine.Base.Float.{Float}

pub data ExitReason : Type 0 where
  hold : ExitReason
  static_tp : ExitReason
  trailing_stop_breakeven : ExitReason
  trailing_stop_ratchet : ExitReason
  signal_decay_flip : ExitReason
  signal_decay_strikes : ExitReason
  time_limit : ExitReason
  sentiment_reversal : ExitReason

pub record ExitDecision (F : Type 0) : Type 0 where
  pub should_exit : Bool
  pub reason : ExitReason
  pub target_price : Option F

-- `ExitDecision(False, ExitReason.HOLD)`
abbrev pub holding : {F : Type 0} → ExitDecision F
holding = record { should_exit = false; reason = hold; target_price = none }

-- `ExitDecision(True, reason, ...)`
abbrev pub leave : {F : Type 0} → ExitReason → Option F → ExitDecision F
leave reason target = record { should_exit = true; reason = reason; target_price = target }

pub record TakeProfitConfig (F : Type 0) : Type 0 where
  pub static_enabled : Bool
  pub trailing_enabled : Bool
  pub signal_decay_enabled : Bool
  pub time_enabled : Bool
  pub sentiment_reversal_enabled : Bool
  pub min_rr_multiplier : F
  pub kronos_target_fraction : F
  pub kronos_mfe_capture_fraction : F
  pub kronos_mae_buffer : F
  pub time_post_peak_grace_hours : F
  pub breakeven_activation_mult : F
  pub breakeven_buffer : F
  pub trail_activation_mult : F
  pub trail_multiplier : F
  pub signal_decay_min_confidence : F
  pub signal_decay_max_uncertainty : F
  pub signal_decay_max_strikes : ℕ
  pub signal_decay_max_topk_misses : ℕ
  pub time_horizon_multiplier : F
  pub sentiment_reversal_threshold : F
  pub sentiment_reversal_min_confidence : F

pub record PositionTpState (F : Type 0) : Type 0 where
  pub symbol : String
  pub entry_price : F
  pub entry_mean_return : F
  pub entry_stop_pct : F
  pub peak_price : F
  pub opened_at_ms : ℕ
  pub signal_decay_strikes : ℕ
  pub topk_miss_strikes : ℕ
  pub breakeven_armed : Bool
  pub trail_armed : Bool
  pub current_trailing_stop : Option F
  pub predicted_mfe_pct : Option F
  pub predicted_mae_pct : Option F
  pub predicted_peak_bar : Option ℕ
  pub bar_interval_ms : ℕ

pub record TakeProfitManager (F : Type 0) : Type 0 where
  pub config : TakeProfitConfig F
  pub pred_len : ℕ
  pub positions : Dict (PositionTpState F)

-- What `getattr` finds on a signal: `none` is an attribute that is missing.
pub record SignalAttributes (F : Type 0) : Type 0 where
  pub mean_return : Option F
  pub stop_pct : Option F
  pub direction_confidence : Option F
  pub uncertainty : Option F

-- What `getattr` finds on a path signal: `none` is an attribute that is missing or `None`.
pub record PathAttributes (F : Type 0) : Type 0 where
  pub predicted_mfe_pct : Option F
  pub predicted_mae_pct : Option F
  pub predicted_peak_bar : Option ℕ

-- `getattr(o, name, default)`
abbrev pub attribute : {A : Type 0} → Option A → A → A
attribute none default = default
attribute (some a) default = a

-- The attribute of an object that may be `None`.
abbrev pub attribute_of : {A B : Type 0} → (A → Option B) → Option A → Option B
attribute_of get none = none
attribute_of get (some a) = get a

module _ {F : Type 0} ⦃d : Float F⦄ where
  open d use {zero, decimal, neg}

  -- The defaults of the class.
  abbrev pub default_config : TakeProfitConfig F
  default_config = record {
    static_enabled = true;
    trailing_enabled = true;
    signal_decay_enabled = true;
    time_enabled = true;
    sentiment_reversal_enabled = false;
    min_rr_multiplier = decimal 15 1;
    kronos_target_fraction = decimal 80 2;
    kronos_mfe_capture_fraction = decimal 85 2;
    kronos_mae_buffer = decimal 110 2;
    time_post_peak_grace_hours = decimal 12 0;
    breakeven_activation_mult = decimal 1 0;
    breakeven_buffer = decimal 1 3;
    trail_activation_mult = decimal 2 0;
    trail_multiplier = decimal 5 1;
    signal_decay_min_confidence = decimal 55 2;
    signal_decay_max_uncertainty = decimal 3 0;
    signal_decay_max_strikes = 2;
    signal_decay_max_topk_misses = 6;
    time_horizon_multiplier = decimal 1 0;
    sentiment_reversal_threshold = neg (decimal 3 1);
    sentiment_reversal_min_confidence = decimal 6 1;
  }

  -- The state that `register_position` builds.
  unfoldable pub new_position :
      String → F → SignalAttributes F → ℕ → Option (PathAttributes F) → ℕ → PositionTpState F
  new_position symbol entry_price entry opened_at_ms path bar_interval_ms = record {
    symbol = symbol;
    entry_price = entry_price;
    entry_mean_return = attribute entry.mean_return zero;
    entry_stop_pct = attribute entry.stop_pct zero;
    peak_price = entry_price;
    opened_at_ms = opened_at_ms;
    signal_decay_strikes = 0;
    topk_miss_strikes = 0;
    breakeven_armed = false;
    trail_armed = false;
    current_trailing_stop = none;
    predicted_mfe_pct = attribute_of (λ (p : PathAttributes F). p.predicted_mfe_pct) path;
    predicted_mae_pct = attribute_of (λ (p : PathAttributes F). p.predicted_mae_pct) path;
    predicted_peak_bar = attribute_of (λ (p : PathAttributes F). p.predicted_peak_bar) path;
    bar_interval_ms = bar_interval_ms;
  }

  unfoldable pub register_position :
      TakeProfitManager F
      → String
      → F
      → SignalAttributes F
      → ℕ
      → Option (PathAttributes F)
      → ℕ
      → TakeProfitManager F
  register_position m symbol entry_price entry opened_at_ms path bar_interval_ms = record m {
    positions =
        Dict.insert symbol (new_position symbol entry_price entry opened_at_ms path bar_interval_ms)
          m.positions;
  }

unfoldable pub deregister_position :
    {F : Type 0} → TakeProfitManager F → String → TakeProfitManager F
deregister_position m symbol = record m { positions = Dict.erase symbol m.positions }

unfoldable pub get_trailing_stop : {F : Type 0} → TakeProfitManager F → String → Option F
get_trailing_stop m symbol = elim (Dict.lookup symbol m.positions) [
  | none ↦ none
  | some state ↦ state.current_trailing_stop
]
