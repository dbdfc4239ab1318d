-- ===== src/Risk/Fscs/Warning.antt =====
-- The warning is raised once for each time that equity climbs over the line.
use async_trading_engine.Base.{◌≡◌, refl, Bool, true, false, List, [], ◌∷◌, none, some, arith, All}
use async_trading_engine.Base.Float.{Float}
use async_trading_engine.Core.Models.{RiskEventKind, fscs_warn}
use async_trading_engine.Risk.Config.{RiskConfig}
use async_trading_engine.Risk.Fscs.{rearm_band_gbp, update_equity}

module _ {F : Type 0} ⦃d : Float F⦄ where
  open d use {le, lt, sub}

  -- The flag after a list of readings, and how many of them raised the warning.
  pub warnings : RiskConfig F → Bool → List F → Bool × List (RiskEventKind F)
  warnings c warned [] = (warned, [])
  warnings c warned (equity ∷ rest) =
      let (warned', event) = update_equity c warned equity in
      let (final, later) = warnings c warned' rest in
      (final, elim event [ none ↦ later | some e ↦ e ∷ later ])

  step_quiet :
      (c : RiskConfig F) (e : F)
      → lt e (sub c.fscs_warn_gbp rearm_band_gbp) ≡ false
      → update_equity c true e ≡ (true, none)
  unfolding update_equity
  step_quiet c e h = rw h

  step_low :
      (c : RiskConfig F) (e : F) (warned : Bool)
      → lt e (sub c.fscs_warn_gbp rearm_band_gbp) ≡ true
      → le c.fscs_warn_gbp e ≡ false
      → update_equity c warned e ≡ (false, none)
  unfolding update_equity
  step_low c e true h k = rw h
  step_low c e false h k = rw k

  step_high :
      (c : RiskConfig F) (e : F)
      → le c.fscs_warn_gbp e ≡ true
      → update_equity c false e ≡ (true, some (fscs_warn e c.fscs_warn_gbp c.fscs_cap_gbp))
  unfolding update_equity
  step_high c e h = rw h

  quiet :
      (c : RiskConfig F) (readings : List F)
      → All (λ e. lt e (sub c.fscs_warn_gbp rearm_band_gbp) ≡ false) readings
      → warnings c true readings ≡ (true, [])
  unfolding warnings
  quiet c [] h = refl
  quiet c (e ∷ rest) h = ground (arith, step_quiet c e h.0, quiet c rest h.1)

  -- Whatever the flag was, a reading below the line less the band, then one on or over the line,
  -- and then readings that stay on or over the line less the band raise exactly one warning.
  warnings_once :
      (c : RiskConfig F) (warned : Bool) (low high : F) (readings : List F)
      → lt low (sub c.fscs_warn_gbp rearm_band_gbp) ≡ true
      → le c.fscs_warn_gbp low ≡ false
      → le c.fscs_warn_gbp high ≡ true
      → All (λ e. lt e (sub c.fscs_warn_gbp rearm_band_gbp) ≡ false) readings
      → warnings c warned (low ∷ high ∷ readings)
        ≡ (true, fscs_warn high c.fscs_warn_gbp c.fscs_cap_gbp ∷ [])
  unfolding warnings
  warnings_once c warned low high readings h k l q =
      ground (arith, step_low c low warned h k, step_high c high l, quiet c readings q)
