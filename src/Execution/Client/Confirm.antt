-- ===== src/Execution/Client/Confirm.antt =====
-- What the confirmation of a deal waits for, and what the calls send.
use async_trading_engine.Base.{ℕ, zero, suc, ◌<◌, true, String, ◌≡◌, arith}
use async_trading_engine.Base.Float.{Float}
use async_trading_engine.Core.Models.{Failure, Result, ok, failed, other_failure}
use async_trading_engine.Execution.Http.{Link, Net}
use async_trading_engine.Execution.Http.Retry.{request}
use async_trading_engine.Execution.Client.{
  Body, get_request, Payload, has_message, read_confirmation,
}
use async_trading_engine.Execution.Client.Calls.{confirm_attempts, confirm_order}
use Prim.Native.String.{◌++◌ as ◌<>◌}

module _ {F S : Type 0} ⦃d : Float F⦄ (link : Link S (Body F) (Payload F)) where
  open link use {clock}

  abbrev pub ask :
      String → Net S (Body F) (Payload F) → Result (Payload F) × Net S (Body F) (Payload F)
  ask reference net = request link (get_request ("/confirms/" <> reference)) net

  -- The `n`-th query for a confirmation, counted from 0, when each is followed by the next.
  unfoldable pub query :
      String → ℕ → Net S (Body F) (Payload F) → Result (Payload F) × Net S (Body F) (Payload F)
  query reference zero net = ask reference net
  query reference (suc n) net = query reference n (ask reference net).1

  -- IG does not know the deal yet.
  abbrev pub IsLate : Result (Payload F) → Type 0
  IsLate r = (e : Failure) × (r ≡ failed e) × (has_message "deal-not-found" e ≡ true)

  confirm_attempts-query :
      (reference : String) (n k : ℕ) (last : Failure) (net : Net S (Body F) (Payload F))
      → k < n
      → ((j : ℕ) → j < k → IsLate (query reference j net).0)
      → (payload : Payload F) → (query reference k net).0 ≡ ok payload
      → confirm_attempts link n last reference net ≡ (ok payload, (query reference k net).1)
  unfolding confirm_attempts query
  confirm_attempts-query reference zero k last net lt late payload h = ground arith
  confirm_attempts-query reference (suc n) zero last net lt late payload h = ground (arith, h)
  confirm_attempts-query reference (suc n) (suc k) last net lt late payload h =
      let (e, fails, not_found) = late 0 (omega arith) in
      ground (
        arith,
        fails,
        not_found,
        confirm_attempts-query reference n k e (ask reference net).1 (omega (arith, lt))
            (λ j j<k. late (suc j) (omega (arith, j<k))) payload h,
      )

  -- When IG does not know the deal for up to three queries and the next one is answered, the
  -- confirmation is read from that answer.
  pub confirm_order-query :
      (reference : String) (k : ℕ) (net : Net S (Body F) (Payload F))
      → k < 4
      → ((j : ℕ) → j < k → IsLate (query reference j net).0)
      → (payload : Payload F) → (query reference k net).0 ≡ ok payload
      → confirm_order link reference net ≡ (
        read_confirmation reference (clock (query reference k net).1.world) payload,
        (query reference k net).1,
      )
  unfolding confirm_order
  confirm_order-query reference k net lt late payload h =
      ground (arith, confirm_attempts-query reference 4 k other_failure net lt late payload h)
