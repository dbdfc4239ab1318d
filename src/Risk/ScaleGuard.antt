-- ===== src/Risk/ScaleGuard.antt =====
-- src/bot/risk/scale_guard.py: the drift of the configured quote scale.
use async_trading_engine.Base.{◌||◌, Option, none, some, String, if◌then◌else◌}
use async_trading_engine.Base.Float.{Float, abs}
use async_trading_engine.Execution.QuoteScale.{ig_quote_scale}

pub data DriftSeverity : Type 0 where
  in_range warn critical : DriftSeverity

pub record ScaleDriftResult (F : Type 0) : Type 0 where
  pub symbol : String
  pub candle_price : F
  pub ig_mid : F
  pub expected_scale : F
  pub real_scale : F
  pub drift : F
  pub severity : DriftSeverity

module _ {F : Type 0} ⦃d : Float F⦄ where
  open d use {zero, le, sub, div}

  unfoldable pub classify_drift : F → F → F → DriftSeverity
  classify_drift warn_at critical_at drift =
      if le critical_at (abs drift)
      then critical
      else if le warn_at (abs drift)
      then warn
      else in_range

  -- `ScaleDriftResult.implied_pnl_error`
  unfoldable pub implied_pnl_error : ScaleDriftResult F → F
  implied_pnl_error r = abs r.drift

  -- The scale that is expected is 1 / pip, which is not zero.
  unfoldable pub compute_drift : F → F → String → F → F → Option (ScaleDriftResult F)
  unfolding classify_drift
  compute_drift warn_at critical_at symbol candle_price ig_mid =
      if le candle_price zero || le ig_mid zero
      then none
      else let expected = ig_quote_scale symbol in
        let real = div ig_mid candle_price in
        let drift = div (sub real expected) expected in
        some (record {
          symbol = symbol;
          candle_price = candle_price;
          ig_mid = ig_mid;
          expected_scale = expected;
          real_scale = real;
          drift = drift;
          severity = classify_drift warn_at critical_at drift;
        })
