-- ===== src/Execution/Close/Openings.antt =====
-- Closing and reconciling open no position.
use async_trading_engine.Base.{
  ℕ, ◌≤◌, ◌≡◌, refl, ◌∙◌, ◌⊎◌, List, [], ◌∷◌, String, arith, inl, inr, ap, Bool-cases, Option-cases,
  is_some,
}
use async_trading_engine.Base.Float.{Float}
use async_trading_engine.Base.Dict
use async_trading_engine.Base.Dict.{Dict, same_key}
use async_trading_engine.Core.Models.{Position, OrderSide, sell}
use async_trading_engine.Core.Wiring.{candle_for}
use async_trading_engine.Data.Symbols.{member}
use async_trading_engine.Execution.Http.{Link, Net}
use async_trading_engine.Execution.Http.Retry.{request}
use async_trading_engine.Execution.Http.Once.{Result-cases, request-effects}
use async_trading_engine.Execution.Client.{
  Body, Payload, RawPosition, get_request, close_request, or_else,
}
use async_trading_engine.Execution.Client.Calls.{
  close_position, fetch_positions_raw, fetch_closed_transaction,
}
use async_trading_engine.Execution.Client.Openings.{
  is_opening, openings, openings-get, openings-confirm_order,
}
use async_trading_engine.Execution.Context.{Bot}
use async_trading_engine.Execution.Context.Openings.{net-handle_order_filled}
use async_trading_engine.Execution.Close.{
  CloseResult, closed_at, close_failed, deferred, forget_exit, close_ig_position,
  purge_stale_position,
}
use async_trading_engine.Execution.Close.Reconcile.{
  Match, epics_of, reseed_budget, reconcile_matched, handle_orphan, match_entry, match_entries,
  purge_stale, reconcile_positions_with_ig, handle_close_failure, request_close,
}

module _ {F S : Type 0} ⦃d : Float F⦄ (link : Link S (Body F) (Payload F)) where
  openings-close_position :
      (deal_id : String) (side : OrderSide) (size : F) (net : Net S (Body F) (Payload F))
      → openings (close_position link deal_id side size net).1 ≤ openings net
  unfolding close_position
  openings-close_position deal_id side size net =
      let q = close_request deal_id side size in
      let r = request link q net in
      let sent = request-effects link is_opening q net (λ e. ground (arith, e)) in
      elim (Result-cases r.0) [
        | inl (payload, h) ↦
            let deal_ref = or_else payload.deal_reference "" in
            ground (arith, h, sent, openings-confirm_order link deal_ref r.1)
        | inr (e, h) ↦ ground (arith, h, sent)
      ]

  pub openings-fetch_positions_raw :
      (net : Net S (Body F) (Payload F)) → openings (fetch_positions_raw link net).1 ≤ openings net
  unfolding fetch_positions_raw
  openings-fetch_positions_raw net =
      elim (Result-cases (request link (get_request "/positions") net).0) [
        | inl (payload, h) ↦ ground (arith, h, openings-get link "/positions" net)
        | inr (e, h) ↦ ground (arith, h, openings-get link "/positions" net)
      ]

  openings-fetch_closed_transaction :
      (opened_at_ms : ℕ) (net : Net S (Body F) (Payload F))
      → openings (fetch_closed_transaction link opened_at_ms net).1 ≤ openings net
  unfolding fetch_closed_transaction
  openings-fetch_closed_transaction opened_at_ms net =
      let path : String = "/history/transactions" in
      elim (Result-cases (request link (get_request path) net).0) [
        | inl (payload, h) ↦ ground (arith, h, openings-get link path net)
        | inr (e, h) ↦ ground (arith, h, openings-get link path net)
      ]

  pub net-forget_exit : (symbol : String) (bot : Bot F S) → (forget_exit symbol bot).net ≡ bot.net
  unfolding forget_exit
  net-forget_exit symbol bot = elim (Option-cases bot.tp_manager) [
    | inl h ↦ ground (arith, h)
    | inr (m, h) ↦ ground (arith, h)
  ]

  pub openings-close_ig_position :
      (symbol : String) (p : Position F) (bot : Bot F S)
      → openings (close_ig_position link symbol p bot).1.net ≤ openings bot.net
  unfolding close_ig_position
  openings-close_ig_position symbol p bot =
      let deal_id = Dict.get_or symbol "" bot.ig_deal_ids in
      let r = close_position link deal_id sell p.quantity bot.net in
      let few = openings-close_position deal_id sell p.quantity bot.net in
      elim (Result-cases r.0) [
        | inl (fill, h) ↦
            let taken = record bot { net = r.1; ig_deal_ids = Dict.erase symbol bot.ig_deal_ids } in
            ground (arith, h, few, ap openings (net-handle_order_filled link fill taken))
        | inr (e, h) ↦ ground (arith, h, few)
      ]

  openings-purge_stale_position :
      (symbol : String) (p : Position F) (bot : Bot F S)
      → openings (purge_stale_position link symbol p bot).1.net ≤ openings bot.net
  unfolding purge_stale_position forget_exit
  openings-purge_stale_position symbol p bot =
      let few = openings-fetch_closed_transaction p.opened_at bot.net in
      elim (Option-cases bot.tp_manager) [
        | inl h ↦ ground (arith, h, few)
        | inr (m, h) ↦ ground (arith, h, few)
      ]

  openings-purge_stale :
      (live : List String) (held : Dict (Position F)) (bot : Bot F S)
      → openings (purge_stale link live held bot).1.net ≤ openings bot.net
  unfolding purge_stale
  openings-purge_stale live [] bot = omega arith
  openings-purge_stale live ((symbol, p) ∷ rest) bot =
      let purged = purge_stale_position link symbol p bot in
      let few = openings-purge_stale_position symbol p bot in
      elim (Bool-cases (member symbol live)) [
        | inl h ↦ ground (arith, h, openings-purge_stale live rest bot)
        | inr h ↦ elim (Bool-cases purged.0) [
          | inl k ↦ ground (arith, h, k, few, openings-purge_stale live rest purged.1)
          | inr k ↦ ground (arith, h, k, few)
        ]
      ]

module _ {F S : Type 0} ⦃d : Float F⦄ where
  net-handle_orphan :
      (entry : RawPosition F) (bot : Bot F S) → (handle_orphan entry bot).net ≡ bot.net
  unfolding handle_orphan
  net-handle_orphan entry bot = ground arith

  net-reconcile_matched :
      (entry : RawPosition F) (p : Position F) (bot : Bot F S)
      → (reconcile_matched entry p bot).net ≡ bot.net
  unfolding reconcile_matched reseed_budget
  net-reconcile_matched entry p bot = ground arith

  net-match_entry :
      (entry : RawPosition F) (m : Match F S) → (match_entry entry m).bot.net ≡ m.bot.net
  unfolding match_entry
  net-match_entry entry m =
      let symbol = candle_for m.bot.epic_to_candle entry.epic in
      elim (Option-cases (Dict.lookup symbol m.bot.positions)) [
        | inl h ↦ ground (arith, h, net-handle_orphan entry m.bot)
        | inr (p, h) ↦ elim (Bool-cases (member entry.epic m.unclaimed_epics)) [
          | inl k ↦ ground (
            arith,
            h,
            k,
            net-reconcile_matched entry p
                (record m.bot { ig_deal_ids = Dict.insert symbol entry.deal_id m.bot.ig_deal_ids }),
          )
          | inr k ↦ ground (arith, h, k, net-handle_orphan entry m.bot)
        ]
      ]

  net-match_entries :
      (raw : List (RawPosition F)) (m : Match F S) → (match_entries raw m).bot.net ≡ m.bot.net
  unfolding match_entries
  net-match_entries [] m = refl
  net-match_entries (entry ∷ rest) m =
      net-match_entries rest (match_entry entry m) ∙ net-match_entry entry m

module _ {F S : Type 0} ⦃d : Float F⦄ (link : Link S (Body F) (Payload F)) where
  pub openings-reconcile_positions_with_ig :
      (bot : Bot F S) → openings (reconcile_positions_with_ig link bot).1.net ≤ openings bot.net
  unfolding reconcile_positions_with_ig
  openings-reconcile_positions_with_ig bot =
      let r = fetch_positions_raw link bot.net in
      let asked = record bot { net = r.1 } in
      let few = openings-fetch_positions_raw link bot.net in
      elim (Result-cases r.0) [
        | inl (raw, h) ↦
            let start : Match F S = record {
              bot = asked;
              live_symbols = [];
              unclaimed_epics = epics_of asked asked.positions;
            } in
            let m = match_entries raw start in
            ground (
              arith,
              h,
              few,
              ap openings (net-match_entries raw start),
              openings-purge_stale link m.live_symbols m.bot.positions m.bot,
            )
        | inr (e, h) ↦ ground (arith, h, few)
      ]

  pub openings-handle_close_failure :
      (symbol : String) (bot : Bot F S)
      → openings (handle_close_failure link symbol bot).net ≤ openings bot.net
  unfolding handle_close_failure
  openings-handle_close_failure symbol bot =
      let after = (reconcile_positions_with_ig link bot).1 in
      let few = openings-reconcile_positions_with_ig bot in
      elim (Bool-cases (is_some (Dict.lookup symbol after.positions))) [
        | inl h ↦ ground (arith, h, few)
        | inr h ↦ ground (arith, h, few)
      ]

  -- What a close can come to.
  pub CloseResult-cases :
      (r : CloseResult F)
      → ((fill : F) × (r ≡ closed_at fill)) ⊎ ((r ≡ close_failed) ⊎ (r ≡ deferred))
  CloseResult-cases (closed_at fill) = inl (fill, refl)
  CloseResult-cases close_failed = inr (inl refl)
  CloseResult-cases deferred = inr (inr refl)

  -- A requested close opens no position, whatever IG answers.
  pub openings-request_close :
      (symbol : String) (bot : Bot F S)
      → openings (request_close link symbol bot).net ≤ openings bot.net
  unfolding request_close
  openings-request_close symbol bot = elim (Option-cases (Dict.lookup symbol bot.positions)) [
    | inl h ↦ ground (arith, h)
    | inr (p, h) ↦
        let r = close_ig_position link symbol p bot in
        let few = openings-close_ig_position link symbol p bot in
        elim (CloseResult-cases r.0) [
          | inl (fill, k) ↦ ground (arith, h, k, few, ap openings (net-forget_exit link symbol r.1))
          | inr (inl k) ↦ ground (arith, h, k, few, openings-handle_close_failure symbol r.1)
          | inr (inr k) ↦ ground (arith, h, k, few)
        ]
  ]
