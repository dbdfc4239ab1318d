-- ===== src/Execution/Entry/Retry.antt =====
-- The retry of an order at a stake on the grid.
use async_trading_engine.Base.{
  ◌+◌, ◌≤◌, true, false, not, ◌&&◌, Option, ◌≡◌, ◌⊎◌, inl, inr, arith, Bool-cases,
}
use async_trading_engine.Base.Float.{Float}
use async_trading_engine.Core.Models.{Failure, failed, OrderRequest, order_request}
use async_trading_engine.Execution.Http.{Link, Net}
use async_trading_engine.Execution.Http.Once.{Result-cases}
use async_trading_engine.Execution.Client.{Body, Payload, has_message}
use async_trading_engine.Execution.Client.Calls.{place_order}
use async_trading_engine.Execution.Client.Openings.{
  openings, openings-place_order, openings-confirm_order,
}
use async_trading_engine.Execution.Entry.{
  snap_size_up_to_grid, place_and_confirm, retry_snapped, place_with_size_retry,
}

module _ {F S : Type 0} ⦃d : Float F⦄ (link : Link S (Body F) (Payload F)) where
  open d use {le}

  openings-place_and_confirm :
      (order : OrderRequest F) (net : Net S (Body F) (Payload F))
      → openings (place_and_confirm link order net).1 ≤ 1 + openings net
  unfolding place_and_confirm
  openings-place_and_confirm order net =
      let placed = place_order link order net in
      elim (Result-cases placed.0) [
        | inl (pending, h) ↦ ground (
          arith,
          h,
          openings-place_order link order net,
          openings-confirm_order link pending.order_id placed.1,
        )
        | inr (e, h) ↦ ground (arith, h, openings-place_order link order net)
      ]

  -- IG refused the stake of the order, and the grid has a larger one.
  abbrev pub IsRefusedStake : OrderRequest F → Option F → Net S (Body F) (Payload F) → Type 0
  IsRefusedStake order min_deal_size net =
      (e : Failure) × ((place_and_confirm link order net).0 ≡ failed e)
      × (has_message "SIZE_INCREMENT" e ≡ true)
      × (le (snap_size_up_to_grid order.size min_deal_size) order.size ≡ false)

  -- An entry opens at most one position, or the first order failed over its stake with a larger
  -- stake on the grid, and then the two orders open at most two.
  pub openings-place_with_size_retry :
      (order : OrderRequest F) (min_deal_size : Option F) (net : Net S (Body F) (Payload F))
      → (openings (place_with_size_retry link order min_deal_size net).1 ≤ 1 + openings net)
        ⊎ (IsRefusedStake order min_deal_size net
            × (openings (place_with_size_retry link order min_deal_size net).1 ≤ 2 + openings net))
  unfolding place_with_size_retry retry_snapped
  openings-place_with_size_retry order min_deal_size net =
      let first = place_and_confirm link order net in
      let snapped = snap_size_up_to_grid order.size min_deal_size in
      let again = order_request order.epic order.direction snapped order.stop_distance in
      elim (Result-cases first.0) [
        | inl (confirmed, h) ↦ inl (ground (arith, h, openings-place_and_confirm order net))
        | inr (e, h) ↦
            elim (Bool-cases (has_message "SIZE_INCREMENT" e && not (le snapped order.size))) [
              | inl k ↦ inr (
                (e, h, ground (arith, k), ground (arith, k)),
                elim (Result-cases (place_and_confirm link again first.1).0) [
                  | inl (confirmed, a) ↦ ground (
                    arith,
                    h,
                    k,
                    a,
                    openings-place_and_confirm order net,
                    openings-place_and_confirm again first.1,
                  )
                  | inr (f, a) ↦ ground (
                    arith,
                    h,
                    k,
                    a,
                    openings-place_and_confirm order net,
                    openings-place_and_confirm again first.1,
                  )
                ],
              )
              | inr k ↦ inl (ground (arith, h, k, openings-place_and_confirm order net))
            ]
      ]
