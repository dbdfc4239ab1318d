-- ===== src/Execution/Http/Once.antt =====
-- What the loop of attempts sends at most, and how often a request can take effect.
use async_trading_engine.Base.{
  ℕ, zero, suc, ◌+◌, ◌≤◌, Bool, true, false, not, ◌&&◌, ◌||◌, List, [], ◌∷◌, if◌then◌else◌, eqb,
  ◌≡◌, ◌⊎◌, refl, arith, inl, inr,
}
use async_trading_engine.Base.Dict.{same_key}
use async_trading_engine.Core.Models.{Failure, other_failure, Result, ok, failed, is_retryable}
use async_trading_engine.Execution.Http.{
  Request, Reply, answered, dropped, raised, is_allowance_code, is_server_error, handle_response,
  outcome, give_up, is_ambiguous, react, react_to_error, Link, Entry, sent, refreshed, Net,
}
use async_trading_engine.Execution.Http.Retry.{transmit, refresh, pause, attempts, request}

-- IG refused the request and did not carry it out: it asked for a login or for fewer requests.
unfoldable pub is_refusal : {J : Type 0} → Reply J → Bool
unfolding is_allowance_code
is_refusal (answered r) =
    eqb r.status 401
    || eqb r.status 403
    || eqb r.status 429
    || not (eqb r.status 200) && not (is_server_error r.status) && is_allowance_code r.error_code
is_refusal _ = false

module _ {B J : Type 0} where
  -- How many of the requests of a kind in a log may have taken effect.
  unfoldable pub effects : (Request B → Bool) → List (Entry B J) → ℕ
  unfolding is_refusal
  effects kind [] = 0
  effects kind (sent q reply ∷ log) =
      if kind q && not (is_refusal reply) then suc (effects kind log) else effects kind log
  effects kind (_ ∷ log) = effects kind log

  -- How many requests a log holds.
  unfoldable pub sends : List (Entry B J) → ℕ
  sends [] = 0
  sends (sent q reply ∷ log) = suc (sends log)
  sends (_ ∷ log) = sends log

  -- How many logins a log holds.
  unfoldable pub logins : List (Entry B J) → ℕ
  logins [] = 0
  logins (refreshed done ∷ log) = suc (logins log)
  logins (_ ∷ log) = logins log

-- A failure that is no refusal ends a request that is not idempotent.
react_unrefused :
    {J : Type 0} (reply : Reply J) (used refreshing same_token : Bool) (e : Failure)
    → is_refusal reply ≡ false
    → outcome reply ≡ failed e
    → react false used refreshing same_token e ≡ give_up
unfolding is_refusal outcome handle_response react react_to_error is_ambiguous is_retryable
    is_allowance_code
react_unrefused (answered r) used f s e h k = ground arith
react_unrefused dropped used f s e h k = ground arith
react_unrefused raised used f s e h k = ground arith

pub Result-cases :
    {A : Type 0} (r : Result A) → ((a : A) × (r ≡ ok a)) ⊎ ((e : Failure) × (r ≡ failed e))
Result-cases (ok a) = inl (a, refl)
Result-cases (failed e) = inr (e, refl)

module _ {S B J : Type 0} (link : Link S B J) where
  open link use {cst, refreshing}

  effects-pause :
      (kind : Request B → Bool) (n : ℕ) (net : Net S B J)
      → effects kind (pause link n net).log ≡ effects kind net.log
  unfolding pause effects
  effects-pause kind zero net = refl
  effects-pause kind (suc n) net = refl

  sends-pause :
      (n : ℕ) (net : Net S B J)
      → (sends (pause link n net).log ≡ sends net.log)
        × (logins (pause link n net).log ≡ logins net.log)
  unfolding pause sends logins
  sends-pause zero net = (refl, refl)
  sends-pause (suc n) net = (refl, refl)

  attempts-effects :
      (kind : Request B → Bool) (n : ℕ) (used : Bool) (last : Failure) (q : Request B)
      (net : Net S B J)
      → (kind q ≡ true → q.idempotent ≡ false)
      → effects kind (attempts link n used last q net).1.log
        ≤ (if kind q then 1 else 0) + effects kind net.log
  unfolding attempts transmit refresh effects
  attempts-effects kind zero used last q net h = ground arith
  attempts-effects kind (suc n) used last q net h =
      let t = transmit link q net in
      elim (Result-cases (outcome t.0)) [
        | inl (payload, k) ↦ ground (arith, k)
        | inr (e, k) ↦ ground (
          arith,
          k,
          h,
          react_unrefused t.0 used (refreshing t.1.world) (same_key (cst t.1.world) (cst net.world))
              e,
          attempts-effects kind n true e q t.1 h,
          attempts-effects kind n true e q (refresh link t.1).1 h,
          attempts-effects kind n used e q (pause link n t.1) h,
          effects-pause kind n t.1,
        )
      ]

  -- Requests of a kind that is never idempotent take effect at most once for each call of
  -- `request`: of all that a call sends, at most one was not refused by IG; a request of another
  -- kind adds none.
  pub request-effects :
      (kind : Request B → Bool) (q : Request B) (net : Net S B J)
      → (kind q ≡ true → q.idempotent ≡ false)
      → effects kind (request link q net).1.log ≤ (if kind q then 1 else 0) + effects kind net.log
  unfolding request
  request-effects kind q net h = attempts-effects kind 7 false other_failure q net h

  attempts_bounds :
      (n : ℕ) (used : Bool) (last : Failure) (q : Request B) (net : Net S B J)
      → (sends (attempts link n used last q net).1.log ≤ n + sends net.log)
        × (logins (attempts link n used last q net).1.log
            ≤ (if used then 0 else 1) + logins net.log)
  unfolding attempts transmit refresh sends logins react react_to_error
  attempts_bounds zero used last q net = ground arith
  attempts_bounds (suc n) used last q net =
      let t = transmit link q net in
      elim (Result-cases (outcome t.0)) [
        | inl (payload, k) ↦ ground (arith, k)
        | inr (e, k) ↦ ground (
          arith,
          k,
          attempts_bounds n true e q t.1,
          attempts_bounds n true e q (refresh link t.1).1,
          attempts_bounds n used e q (pause link n t.1),
          sends-pause n t.1,
        )
      ]

  -- Every request sends at most seven times and logs in at most once.
  pub request_bounds :
      (q : Request B) (net : Net S B J)
      → (sends (request link q net).1.log ≤ 7 + sends net.log)
        × (logins (request link q net).1.log ≤ 1 + logins net.log)
  unfolding request
  request_bounds q net = attempts_bounds 7 false other_failure q net
