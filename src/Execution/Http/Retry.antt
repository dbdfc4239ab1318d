-- ===== src/Execution/Http/Retry.antt =====
-- `IGHttp.request`: the loop of attempts. The token buckets, which only delay an attempt, and the
-- random jitter of up to two seconds on each delay are left out.
use async_trading_engine.Base.{ℕ, zero, suc, ◌-◌, Bool, true, false, ◌∷◌}
use async_trading_engine.Base.Dict.{same_key}
use async_trading_engine.Core.Models.{Failure, other_failure, Result, ok, failed}
use async_trading_engine.Execution.Http.{
  Request, Reply, outcome, give_up, refresh_and_resend, resend, back_off, react, max_retries,
  delay_after, Link, sent, refreshed, slept, Net,
}

module _ {S B J : Type 0} (link : Link S B J) where
  open link use {send, cst, refreshing, refresh_session}

  -- One request over the wire.
  unfoldable pub transmit : Request B → Net S B J → Reply J × Net S B J
  transmit q net =
      let answer = send q net.world in
      (answer.0, record { world = answer.1; log = sent q answer.0 ∷ net.log })

  unfoldable pub refresh : Net S B J → Bool × Net S B J
  refresh net =
      let answer = refresh_session net.world in
      (answer.0, record { world = answer.1; log = refreshed answer.0 ∷ net.log })

  -- The sleep before the next attempt, with `n` attempts to go: none after the last.
  unfoldable pub pause : ℕ → Net S B J → Net S B J
  pause zero net = net
  pause (suc n) net = record net { log = slept (delay_after (max_retries - suc n)) ∷ net.log }

  -- The loop with `n` attempts to go, and the failure of the attempt before.
  unfoldable pub attempts : ℕ → Bool → Failure → Request B → Net S B J → Result J × Net S B J
  attempts zero auth_retry_used last q net = (failed last, net)
  attempts (suc n) auth_retry_used last q net =
      let t = transmit q net in
      elim (outcome t.0) [
        | ok payload ↦ (ok payload, t.1)
        | failed e ↦
            elim (react q.idempotent auth_retry_used (refreshing t.1.world)
              (same_key (cst t.1.world) (cst net.world)) e) [
                | give_up ↦ (failed e, t.1)
                | refresh_and_resend ↦
                    let r = refresh t.1 in
                    elim r.0 [ true ↦ attempts n true e q r.1 | false ↦ (failed e, r.1) ]
                | resend ↦ attempts n true e q t.1
                | back_off ↦ attempts n auth_retry_used e q (pause n t.1)
              ]
      ]

  -- `request`: at most `max_retries + 1` attempts. With none before, the failure that the loop
  -- starts from is never raised.
  unfoldable pub request : Request B → Net S B J → Result J × Net S B J
  request q net = attempts (suc max_retries) false other_failure q net
