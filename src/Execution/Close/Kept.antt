-- ===== src/Execution/Close/Kept.antt =====
-- A reconciliation keeps the positions that IG reports.
use async_trading_engine.Base.{true, none, some, List, [], String, if◌then◌else◌, ◌≡◌, refl, arith}
use async_trading_engine.Base.Float.{Float}
use async_trading_engine.Base.Dict
use async_trading_engine.Base.Dict.{Dict}
use async_trading_engine.Core.Models.{ok, Position}
use async_trading_engine.Core.Wiring.{candle_for}
use async_trading_engine.Data.Symbols.{member}
use async_trading_engine.Execution.Http.{Link}
use async_trading_engine.Execution.Client.{Body, Payload, RawPosition}
use async_trading_engine.Execution.Client.Calls.{fetch_positions_raw}
use async_trading_engine.Execution.Context.{Bot, epic_for}
use async_trading_engine.Execution.Close.Reconcile.{
  Match, epics_of, match_entries, reconcile_positions_with_ig,
}
use async_trading_engine.Execution.Close.Sync.{
  has_epic, IsRoundTrip, match_entries-live, member-epics_of, epics_of-back, lookup-purge_stale,
}

module _ {F S : Type 0} ⦃d : Float F⦄ (link : Link S (Body F) (Payload F)) where
  back_of :
      (bot : Bot F S) (ps : Dict (Position F))
      → IsRoundTrip bot ps
      → (epic : String) → member epic (epics_of bot ps) ≡ true
      → epic_for bot (candle_for bot.epic_to_candle epic) ≡ epic
  back_of bot ps trip epic h =
      let (symbol, found, goes) = epics_of-back bot ps epic h in
      ground (arith, goes, trip symbol found)

  -- When every local symbol comes back from its EPIC, a reconciliation that does not raise keeps
  -- exactly the local positions whose EPIC is among the positions that IG reports, as they were.
  pub reconcile_positions_with_ig-kept :
      (bot after : Bot F S) (raw : List (RawPosition F)) (symbol : String) (p : Position F)
      → IsRoundTrip bot bot.positions
      → (fetch_positions_raw link bot.net).0 ≡ ok raw
      → reconcile_positions_with_ig link bot ≡ (true, after)
      → Dict.lookup symbol bot.positions ≡ some p
      → Dict.lookup symbol after.positions
        ≡ (if has_epic (epic_for bot symbol) raw then some p else none)
  unfolding reconcile_positions_with_ig epic_for
  reconcile_positions_with_ig-kept bot after raw symbol p trip fetched done held =
      let asked = record bot { net = (fetch_positions_raw link bot.net).1 } in
      let start : Match F S = record {
        bot = asked;
        live_symbols = [];
        unclaimed_epics = epics_of asked asked.positions;
      } in
      let m = match_entries raw start in
      let (kept, live) =
        match_entries-live (epic_for asked) bot.epic_to_candle symbol (epic_for asked symbol) p refl
          (trip symbol (ground (arith, held))) raw start
          (
            held,
            refl,
            ground (arith, member-epics_of asked symbol p bot.positions held),
            λ e k. back_of asked bot.positions trip e k,
          ) in
      ground (
        arith,
        held,
        fetched,
        done,
        kept,
        live,
        lookup-purge_stale link m.live_symbols symbol m.bot.positions m.bot after,
      )
