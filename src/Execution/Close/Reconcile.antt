-- ===== src/Execution/Close/Reconcile.antt =====
-- `reconcile_positions_with_ig`, and the closes that call it.
use async_trading_engine.Base.{
  Bool, true, false, ◌&&◌, none, some, List, [], ◌∷◌, String, if◌then◌else◌, is_some,
}
use async_trading_engine.Base.Float.{Float}
use async_trading_engine.Base.Dict
use async_trading_engine.Base.Dict.{Dict, same_key}
use async_trading_engine.Core.Models.{ok, failed, Position}
use async_trading_engine.Core.Wiring.{candle_for}
use async_trading_engine.Data.Symbols.{member}
use async_trading_engine.Execution.Http.{Link}
use async_trading_engine.Execution.Client.{Body, Payload, RawPosition, or_else}
use async_trading_engine.Execution.Client.Calls.{fetch_positions_raw}
use async_trading_engine.Execution.Context.{Bot, epic_for}
use async_trading_engine.Execution.Close.{
  closed_at, close_failed, deferred, forget_exit, is_zero_entry, close_ig_position,
  purge_stale_position,
}
use async_trading_engine.Risk.Manager.Positions.{seed_position, set_risk_budget}

-- The state of the loop over IG's positions.
pub record Match (F S : Type 0) : Type 0 where
  pub bot : Bot F S
  pub live_symbols : List String
  pub unclaimed_epics : List String

-- `unclaimed_epics.discard(epic)`
unfoldable pub discard : String → List String → List String
discard k [] = []
discard k (j ∷ rest) = if same_key j k then discard k rest else j ∷ discard k rest

-- `{ctx.epic_for(s) for s in ctx.state.positions}`
unfoldable pub epics_of : {F S : Type 0} → Bot F S → Dict (Position F) → List String
epics_of bot [] = []
epics_of bot ((symbol, p) ∷ rest) = epic_for bot symbol ∷ epics_of bot rest

module _ {F S : Type 0} ⦃d : Float F⦄ where
  open d use {zero, lt, sub, mul}

  -- The budget of a position on IG: its stake times the distance of its stop, if both are positive.
  unfoldable pub reseed_budget : RawPosition F → Bot F S → Bot F S
  reseed_budget entry bot =
      let size = or_else entry.size zero in
      let level = or_else entry.level zero in
      let stop_level = or_else entry.stop_level zero in
      let distance = sub level stop_level in
      if lt zero size && lt zero level && lt zero stop_level && lt zero distance
      then record bot {
        risk_manager = set_risk_budget bot.risk_manager entry.epic (mul size distance);
      }
      else bot

  -- `_reconcile_matched_position`
  unfoldable pub reconcile_matched : RawPosition F → Position F → Bot F S → Bot F S
  unfolding reseed_budget
  reconcile_matched entry p bot =
      reseed_budget entry
        (record bot { risk_manager = seed_position bot.risk_manager entry.epic p })

  -- `_handle_orphan_position`, once for each deal.
  unfoldable pub handle_orphan : RawPosition F → Bot F S → Bot F S
  handle_orphan entry bot =
      if member entry.deal_id bot.alerted_orphan_deals then bot else record bot {
        alerts = entry.epic ∷ bot.alerts;
        alerted_orphan_deals = entry.deal_id ∷ bot.alerted_orphan_deals;
      }

  -- One entry of IG's positions: it claims a local position of its EPIC, or is an orphan.
  unfoldable pub match_entry : RawPosition F → Match F S → Match F S
  unfolding reconcile_matched handle_orphan discard
  match_entry entry m =
      let symbol = candle_for m.bot.epic_to_candle entry.epic in
      elim (Dict.lookup symbol m.bot.positions) [
        | none ↦ record m { bot = handle_orphan entry m.bot }
        | some p ↦ elim (member entry.epic m.unclaimed_epics) [
          | false ↦ record m { bot = handle_orphan entry m.bot }
          | true ↦ record {
            bot =
                reconcile_matched entry p (record m.bot {
                  ig_deal_ids = Dict.insert symbol entry.deal_id m.bot.ig_deal_ids;
                });
            live_symbols = symbol ∷ m.live_symbols;
            unclaimed_epics = discard entry.epic m.unclaimed_epics;
          }
        ]
      ]

  unfoldable pub match_entries : List (RawPosition F) → Match F S → Match F S
  unfolding match_entry
  match_entries [] m = m
  match_entries (entry ∷ rest) m = match_entries rest (match_entry entry m)

module _ {F S : Type 0} ⦃d : Float F⦄ (link : Link S (Body F) (Payload F)) where
  open d use {zero, div, sub, mul}

  -- The purge of the positions that are not live, until one raises.
  unfoldable pub purge_stale : List String → Dict (Position F) → Bot F S → Bool × Bot F S
  purge_stale live [] bot = (true, bot)
  purge_stale live ((symbol, p) ∷ rest) bot = elim (member symbol live) [
    | true ↦ purge_stale live rest bot
    | false ↦
        let purged = purge_stale_position link symbol p bot in
        elim purged.0 [ true ↦ purge_stale live rest purged.1 | false ↦ (false, purged.1) ]
  ]

  -- `reconcile_positions_with_ig`; `false` is an exception, which is only logged.
  unfoldable pub reconcile_positions_with_ig : Bot F S → Bool × Bot F S
  unfolding match_entries purge_stale epics_of
  reconcile_positions_with_ig bot =
      let r = fetch_positions_raw link bot.net in
      let asked = record bot { net = r.1 } in
      elim r.0 [
        | failed e ↦ (false, asked)
        | ok raw ↦
            let m = match_entries raw (record {
              bot = asked;
              live_symbols = [];
              unclaimed_epics = epics_of asked asked.positions;
            }) in
            purge_stale m.live_symbols m.bot.positions m.bot
      ]

  -- `handle_close_failure`
  unfoldable pub handle_close_failure : String → Bot F S → Bot F S
  handle_close_failure symbol bot =
      let after = (reconcile_positions_with_ig bot).1 in
      if is_some (Dict.lookup symbol after.positions)
      then record after { alerts = symbol ∷ after.alerts }
      else after

  -- `request_close`: the position, when there is one, is closed and its exit rules are forgotten;
  -- a close that failed leads to a reconciliation, one that is deferred to nothing. The summary that
  -- is sent divides by the entry price: when it is zero, that raises before the alert.
  unfoldable pub request_close : String → Bot F S → Bot F S
  unfolding handle_close_failure
  request_close symbol bot = elim (Dict.lookup symbol bot.positions) [
    | none ↦ bot
    | some p ↦
        let r = close_ig_position link symbol p bot in
        elim r.0 [
          | deferred ↦ r.1
          | close_failed ↦ handle_close_failure symbol r.1
          | closed_at fill ↦
              let after = forget_exit symbol r.1 in
              if is_zero_entry p then after else record after { alerts = symbol ∷ after.alerts }
        ]
  ]
