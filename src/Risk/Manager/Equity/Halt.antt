-- ===== src/Risk/Manager/Equity/Halt.antt =====
-- The debounced halt on RED readings.
use async_trading_engine.Base.{
  ℕ, suc, ◌+◌, ◌<◌, ◌≡◌, refl, Bool, true, false, ◌&&◌, List, [], ◌∷◌, arith, if◌then◌else◌, leb,
  length, Option-cases, inl, inr, Bool-cases, ◌∙◌, ◌≢◌,
}
use async_trading_engine.Base.Float.{Float}
use async_trading_engine.Core.Models.{red, same_tier}
use async_trading_engine.Risk.Drawdown
use async_trading_engine.Risk.Drawdown.{TierChange, DrawdownTracker}
use async_trading_engine.Risk.Fscs
use async_trading_engine.Risk.Manager.State.{RiskManager, log_event, log_risk_event}
use async_trading_engine.Risk.Manager.Equity.{
  log_optional, on_tier_change, fscs_step, drawdown_step, evaluate_drawdown_halt, update_equity,
}

-- A reading of the account: whether the maintenance window is on, the clock, and the equity.
pub record Reading (F : Type 0) : Type 0 where
  pub in_blackout : Bool
  pub now : ℕ
  pub equity : F

module _ {F : Type 0} ⦃d : Float F⦄ where
  -- What the steps before the halt leave of the fields that it reads.
  abbrev Kept : RiskManager F → RiskManager F → Type 0
  Kept m m' =
      (m'.config ≡ m.config)
      × (m'.trading_halted ≡ m.trading_halted)
      × (m'.halt_reason ≡ m.halt_reason)
      × (m'.consecutive_red ≡ m.consecutive_red)

  log_event-Kept : (loop : Bool) (now : ℕ) (m : RiskManager F) → Kept m m
  log_event-Kept loop now m = ground arith

  fscs_step-Kept :
      (loop : Bool) (now : ℕ) (equity : F) (m : RiskManager F)
      → Kept m (fscs_step loop now equity m).0
        × ((fscs_step loop now equity m).0.drawdown ≡ m.drawdown)
  unfolding fscs_step log_optional log_risk_event log_event
  fscs_step-Kept loop now equity m =
      elim (Option-cases (Fscs.update_equity m.config m.fscs_warned equity).1) [
        | inl e ↦ rw e (ground arith)
        | inr (k, e) ↦ rw e (ground arith)
      ]

  drawdown_step-Kept :
      (loop : Bool) (now : ℕ) (equity : F) (m : RiskManager F)
      → Kept m (drawdown_step loop now equity m).0
        × ((drawdown_step loop now equity m).0.drawdown
            ≡ (Drawdown.update_equity m.config m.drawdown equity).0)
  unfolding drawdown_step on_tier_change log_risk_event log_event
  drawdown_step-Kept loop now equity m =
      elim (Option-cases (Drawdown.update_equity m.config m.drawdown equity).1) [
        | inl e ↦ rw e (ground arith)
        | inr (k, e) ↦ rw e (ground arith)
      ]

  -- Trading is halted exactly when the count of RED readings has reached the configured number,
  -- which is not zero.
  pub record IsDebounced (m : RiskManager F) : Type 0 where
    pub agrees : m.trading_halted ≡ leb m.config.drawdown_red_confirm_count m.consecutive_red
    pub confirms : 0 < m.config.drawdown_red_confirm_count

  -- The state after a reading of the tier that `m` holds.
  abbrev Judged : RiskManager F → RiskManager F → Type 0
  Judged m m' =
      (m'.config ≡ m.config)
      × (m'.drawdown ≡ m.drawdown)
      × (m'.consecutive_red ≡ (if same_tier m.drawdown.tier red then suc m.consecutive_red else 0))
      × (m'.trading_halted ≡ leb m'.config.drawdown_red_confirm_count m'.consecutive_red)

  evaluate_drawdown_halt-Judged :
      (loop : Bool) (now : ℕ) (m : RiskManager F)
      → IsDebounced m
      → Judged m (evaluate_drawdown_halt loop now m).0
  unfolding evaluate_drawdown_halt
  evaluate_drawdown_halt-Judged loop now m v = ground arith

  -- The state after a reading that is not frozen.
  abbrev pub Read : RiskManager F → F → RiskManager F → Type 0
  Read m equity m' =
      (m'.config ≡ m.config)
      × (m'.drawdown ≡ (Drawdown.update_equity m.config m.drawdown equity).0)
      × (m'.consecutive_red ≡ (if same_tier m'.drawdown.tier red then suc m.consecutive_red else 0))
      × (m'.trading_halted ≡ leb m'.config.drawdown_red_confirm_count m'.consecutive_red)

  Kept-IsDebounced : (m m' : RiskManager F) → Kept m m' → IsDebounced m → IsDebounced m'
  Kept-IsDebounced m m' k v = ground arith

  -- The three steps of a reading, on states that are named.
  steps_Read :
      (m a b c : RiskManager F) (equity : F)
      → Kept m a × (a.drawdown ≡ m.drawdown)
      → Kept a b × (b.drawdown ≡ (Drawdown.update_equity a.config a.drawdown equity).0)
      → Judged b c
      → Read m equity c
  steps_Read m a b c equity first second third = ground arith

  pub update_equity-Read :
      (in_blackout loop : Bool) (now : ℕ) (m : RiskManager F) (equity : F)
      → IsDebounced m
      → (m.config.drawdown_maintenance_guard && in_blackout) ≡ false
      → Read m equity (update_equity in_blackout loop now m equity).0
  unfolding update_equity
  update_equity-Read in_blackout loop now m equity v h =
      let a = (fscs_step loop now equity m).0 in
      let b = (drawdown_step loop now equity a).0 in
      let first = fscs_step-Kept loop now equity m in
      let second = drawdown_step-Kept loop now equity a in
      let debounced = Kept-IsDebounced a b second.0 (Kept-IsDebounced m a first.0 v) in
      rw h (
        steps_Read m a b (evaluate_drawdown_halt loop now b).0 equity first second
          (evaluate_drawdown_halt-Judged loop now b debounced))

  -- If trading is halted exactly when the count of RED readings has reached the configured number,
  -- which is not zero, then so it is after any reading, frozen in the maintenance window or not.
  update_equity-IsDebounced :
      (in_blackout loop : Bool) (now : ℕ) (m : RiskManager F) (equity : F)
      → IsDebounced m
      → IsDebounced (update_equity in_blackout loop now m equity).0
  update_equity-IsDebounced in_blackout loop now m equity v =
      elim (Bool-cases (m.config.drawdown_maintenance_guard && in_blackout)) [
        | inl frozen ↦ unfold update_equity in rw frozen v
        | inr read ↦ ground (arith, update_equity-Read in_blackout loop now m equity v read)
      ]

  -- A session of readings.
  pub update_equities : Bool → RiskManager F → List (Reading F) → RiskManager F
  update_equities loop m [] = m
  update_equities loop m (r ∷ rest) =
      update_equities loop (update_equity r.in_blackout loop r.now m r.equity).0 rest

  -- No reading is frozen, and each leaves the tier at RED.
  abbrev pub AllRed : Bool → RiskManager F → List (Reading F) → Type 0
  AllRed loop m [] = Unit
  AllRed loop m (r ∷ rest) =
      ((m.config.drawdown_maintenance_guard && r.in_blackout) ≡ false)
      × ((update_equity r.in_blackout loop r.now m r.equity).0.drawdown.tier ≡ red)
      × AllRed loop (update_equity r.in_blackout loop r.now m r.equity).0 rest

  red_reads_count :
      (loop : Bool) (readings : List (Reading F)) (m : RiskManager F)
      → IsDebounced m
      → AllRed loop m readings
      → ((update_equities loop m readings).config ≡ m.config)
        × ((update_equities loop m readings).consecutive_red ≡ m.consecutive_red + length readings)
        × IsDebounced (update_equities loop m readings)
  unfolding update_equities
  red_reads_count loop [] m v h = (refl, omega arith, v)
  red_reads_count loop (r ∷ rest) m v h =
      let m' = (update_equity r.in_blackout loop r.now m r.equity).0 in
      let read = update_equity-Read r.in_blackout loop r.now m r.equity v h.0 in
      let ih =
        red_reads_count loop rest m'
          (update_equity-IsDebounced r.in_blackout loop r.now m r.equity v) h.2 in
      let red_now : m'.consecutive_red ≡ suc m.consecutive_red = ground (arith, read, h.1) in
      (ih.0 ∙ read.0, omega (arith, ih.1, red_now), ih.2)

  -- From a manager with no RED reading behind it, whose halt agrees with that count, readings that
  -- are not frozen and all leave the tier at RED halt trading exactly when they are at least as many
  -- as the configured number, which is not zero.
  pub update_equities-halt :
      (loop : Bool) (m : RiskManager F) (readings : List (Reading F))
      → IsDebounced m
      → m.consecutive_red ≡ 0
      → AllRed loop m readings
      → (update_equities loop m readings).trading_halted
        ≡ leb m.config.drawdown_red_confirm_count (length readings)
  update_equities-halt loop m readings v z h =
      let (same, count, w) = red_reads_count loop readings m v h in ground (arith, w.agrees)

  -- In a manager whose halt agrees with its count of RED readings and whose maintenance guard is on,
  -- a reading outside the maintenance window that leaves the tier below RED lets trading resume
  -- and forgets the RED readings; one inside the window changes nothing and sends nothing.
  update_equity-resumes :
      (loop : Bool) (now : ℕ) (m : RiskManager F) (equity : F)
      → IsDebounced m
      → m.config.drawdown_maintenance_guard ≡ true
      → (update_equity false loop now m equity).0.drawdown.tier ≢ red
      → ((update_equity false loop now m equity).0.trading_halted ≡ false)
        × ((update_equity false loop now m equity).0.consecutive_red ≡ 0)
        × (update_equity true loop now m equity ≡ (m, []))
  update_equity-resumes loop now m equity v guarded h =
      let read = update_equity-Read false loop now m equity v (rw guarded) in
      let w = update_equity-IsDebounced false loop now m equity v in
      (ground (arith, read, w.confirms), ground (arith, read), unfold update_equity in rw guarded)
