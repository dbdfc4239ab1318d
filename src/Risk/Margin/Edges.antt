-- ===== src/Risk/Margin/Edges.antt =====
-- The breaker is monotone in the ratio, and speaks on transitions only.
use async_trading_engine.Base.{
  ℕ, ◌≡◌, refl, Bool, true, none, List, [], ◌∷◌, ◌++◌, arith, All, if◌then◌else◌, not, suc, ◌+◌,
  ◌∙◌, ◌&&◌,
}
use async_trading_engine.Base.Float.{Float}
use async_trading_engine.Core.Models.{
  MarginCircuitState, halt_entries, defensive_close, emergency_flatten, liquidation, same_circuit,
  AccountUpdate, Message, shutdown,
}
use async_trading_engine.Risk.Config.{RiskConfig}
use async_trading_engine.Risk.Margin.{
  MarginCircuitBreaker, classify, ratio_of, alarms, transition_messages, update,
}

-- How far a state is from normal.
abbrev pub danger : MarginCircuitState → ℕ
danger MarginCircuitState.normal = 0
danger halt_entries = 1
danger defensive_close = 2
danger emergency_flatten = 3
danger liquidation = 4

pub same_circuit-eq : (a b : MarginCircuitState) → same_circuit a b ≡ true → a ≡ b
same_circuit-eq a b h = ground arith

same_circuit_refl : (a : MarginCircuitState) → same_circuit a a ≡ true
same_circuit_refl a = ground arith

module _ {F : Type 0} ⦃d : Float F⦄ where
  open d use {le}

  pub update-state :
      (c : RiskConfig F) (loop : Bool) (now : ℕ) (b : MarginCircuitBreaker F) (u : AccountUpdate F)
      → (update c loop now b u).breaker.state ≡ classify c (ratio_of u)
  unfolding update
  update-state c loop now b u = ground arith

  -- A session of account pushes, each at its own time: the breaker at the end and all that was sent.
  unfoldable pub run :
      RiskConfig F
      → Bool
      → MarginCircuitBreaker F
      → List (ℕ × AccountUpdate F)
      → MarginCircuitBreaker F × List (Message F)
  run c loop b [] = (b, [])
  run c loop b ((now, u) ∷ rest) =
      let first = update c loop now b u in
      let (last, later) = run c loop first.breaker rest in (last, first.emitted ++ later)

  step_steady :
      (c : RiskConfig F) (loop : Bool) (now : ℕ) (b : MarginCircuitBreaker F) (u : AccountUpdate F)
      → classify c (ratio_of u) ≡ b.state
      → ((update c loop now b u).emitted ≡ []) × ((update c loop now b u).logged ≡ none)
  unfolding update
  step_steady c loop now b u h =
      let same : same_circuit (classify c (ratio_of u)) b.state ≡ true =
        rw h (same_circuit_refl b.state) in
      rw same (refl, refl)

  steady_from :
      (c : RiskConfig F) (loop : Bool) (pushes : List (ℕ × AccountUpdate F))
      (b : MarginCircuitBreaker F) (state : MarginCircuitState)
      → b.state ≡ state
      → All (λ p. classify c (ratio_of p.1) ≡ state) pushes
      → (run c loop b pushes).1 ≡ []
  unfolding run
  steady_from c loop [] b state e h = refl
  steady_from c loop ((now, u) ∷ rest) b state e h = ground (
    arith,
    step_steady c loop now b u,
    steady_from c loop rest (update c loop now b u).breaker state
        (update-state c loop now b u ∙ h.0) h.1,
  )

  unfoldable pub shutdowns : List (Message F) → ℕ
  shutdowns [] = 0
  shutdowns (shutdown reason ∷ rest) = suc (shutdowns rest)
  shutdowns (_ ∷ rest) = shutdowns rest

  shutdowns-append : (xs ys : List (Message F)) → shutdowns (xs ++ ys) ≡ shutdowns xs + shutdowns ys
  unfolding shutdowns
  shutdowns-append [] ys = omega arith
  shutdowns-append (shutdown reason ∷ xs) ys = omega (arith, shutdowns-append xs ys)
  shutdowns-append (_ ∷ xs) ys = shutdowns-append xs ys

  -- How often a sequence of account pushes enters the liquidation zone from outside it.
  pub entries : RiskConfig F → MarginCircuitState → List (ℕ × AccountUpdate F) → ℕ
  entries c state [] = 0
  entries c state ((now, u) ∷ rest) =
      let next = classify c (ratio_of u) in
      entries c next rest
      + (if same_circuit next liquidation && not (same_circuit state liquidation) then 1 else 0)

  shutdowns-update :
      (c : RiskConfig F) (now : ℕ) (b : MarginCircuitBreaker F) (u : AccountUpdate F)
      → shutdowns (update c true now b u).emitted ≡ (
          if same_circuit (classify c (ratio_of u)) liquidation
            && not (same_circuit b.state liquidation)
          then 1
          else 0)
  unfolding update transition_messages alarms shutdowns
  shutdowns-update c now b u = ground arith

  -- With a running loop, the shutdown request is sent once for each entry into liquidation.
  pub shutdowns-run :
      (c : RiskConfig F) (b : MarginCircuitBreaker F) (pushes : List (ℕ × AccountUpdate F))
      → shutdowns (run c true b pushes).1 ≡ entries c b.state pushes
  unfolding run entries
  shutdowns-run c b [] = unfold shutdowns in refl
  shutdowns-run c b ((now, u) ∷ rest) =
      let first = update c true now b u in
      let ih = shutdowns-run c first.breaker rest in
      omega (
        arith,
        shutdowns-append first.emitted (run c true first.breaker rest).1,
        shutdowns-update c now b u,
        rw (update-state c true now b u) at ih,
      )
