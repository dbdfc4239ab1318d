-- ===== src/Execution/Client/Openings.antt =====
-- How many positions the calls of the client can open.
use async_trading_engine.Base.{
  ℕ, zero, suc, ◌+◌, ◌≤◌, Bool, true, false, Option, some, none, String, refl, arith, inl, inr,
}
use async_trading_engine.Base.Float.{Float}
use async_trading_engine.Core.Models.{Failure, other_failure, OrderRequest}
use async_trading_engine.Execution.Http.{Request, Link, Net}
use async_trading_engine.Execution.Http.Retry.{request}
use async_trading_engine.Execution.Http.Once.{effects, request-effects, Result-cases}
use async_trading_engine.Execution.Client.{
  Body, get_request, place_request, place_body, close_body, Payload,
}
use async_trading_engine.Execution.Client.Calls.{
  place_order, fetch_balance, confirm_attempts, confirm_order, require_tradeable,
}
use Prim.Native.String.{◌++◌ as ◌<>◌}

module _ {F : Type 0} where
  abbrev places : Option (Body F) → Bool
  places none = false
  places (some (place_body order)) = true
  places (some (close_body deal_id direction size)) = false

  -- Whether a request asks IG to open a position.
  abbrev pub is_opening : Request (Body F) → Bool
  is_opening q = places q.body

  module _ {S : Type 0} where
    -- How many of the requests that were sent may have opened a position.
    abbrev pub openings : Net S (Body F) (Payload F) → ℕ
    openings net = effects is_opening net.log

module _ {F S : Type 0} ⦃d : Float F⦄ (link : Link S (Body F) (Payload F)) where
  pub openings-place_order :
      (order : OrderRequest F) (net : Net S (Body F) (Payload F))
      → openings (place_order link order net).1 ≤ 1 + openings net
  unfolding place_order
  openings-place_order order net =
      let q = place_request order in
      elim (Result-cases (request link q net).0) [
        | inl (payload, h) ↦ ground (arith, h, request-effects link is_opening q net (λ e. refl))
        | inr (e, h) ↦ ground (arith, h, request-effects link is_opening q net (λ e. refl))
      ]

  pub openings-get :
      (path : String) (net : Net S (Body F) (Payload F))
      → openings (request link (get_request path) net).1 ≤ openings net
  openings-get path net =
      omega (arith, request-effects link is_opening (get_request path) net (λ e. ground (arith, e)))

  openings-confirm_attempts :
      (n : ℕ) (last : Failure) (reference : String) (net : Net S (Body F) (Payload F))
      → openings (confirm_attempts link n last reference net).1 ≤ openings net
  unfolding confirm_attempts
  openings-confirm_attempts zero last reference net = omega arith
  openings-confirm_attempts (suc n) last reference net =
      let path = "/confirms/" <> reference in
      let r = request link (get_request path) net in
      elim (Result-cases r.0) [
        | inl (payload, h) ↦ ground (arith, h, openings-get path net)
        | inr (e, h) ↦
            ground (arith, h, openings-get path net, openings-confirm_attempts n e reference r.1)
      ]

  pub openings-confirm_order :
      (reference : String) (net : Net S (Body F) (Payload F))
      → openings (confirm_order link reference net).1 ≤ openings net
  unfolding confirm_order
  openings-confirm_order reference net =
      elim (Result-cases (confirm_attempts link 4 other_failure reference net).0) [
        | inl (payload, h) ↦
            ground (arith, h, openings-confirm_attempts 4 other_failure reference net)
        | inr (e, h) ↦ ground (arith, h, openings-confirm_attempts 4 other_failure reference net)
      ]

  pub openings-require_tradeable :
      (epic : String) (net : Net S (Body F) (Payload F))
      → openings (require_tradeable link epic net).1 ≤ openings net
  unfolding require_tradeable
  openings-require_tradeable epic net =
      let path = "/markets/" <> epic in
      let r = request link (get_request path) net in
      elim (Result-cases r.0) [
        | inl (payload, h) ↦ ground (arith, h, openings-get path net)
        | inr (e, h) ↦ ground (arith, h, openings-get path net)
      ]

  pub openings-fetch_balance :
      (account_id : String) (net : Net S (Body F) (Payload F))
      → openings (fetch_balance link account_id net).1 ≤ openings net
  unfolding fetch_balance
  openings-fetch_balance account_id net =
      let r = request link (get_request "/accounts") net in
      elim (Result-cases r.0) [
        | inl (payload, h) ↦ ground (arith, h, openings-get "/accounts" net)
        | inr (e, h) ↦ ground (arith, h, openings-get "/accounts" net)
      ]
