-- ===== src/Execution/Close/Sync.antt =====
-- What a reconciliation leaves of the local positions.
use async_trading_engine.Base.{
  Bool, true, false, not, ◌&&◌, ◌||◌, none, some, List, [], ◌∷◌, String, if◌then◌else◌, ◌≡◌, inl,
  inr, arith, is_some, Bool-cases, Option-cases,
}
use async_trading_engine.Base.Float.{Float}
use async_trading_engine.Base.Dict
use async_trading_engine.Base.Dict.{Dict, same_key, same_key_iff}
use async_trading_engine.Core.Models.{Position}
use async_trading_engine.Core.Wiring.{candle_for}
use async_trading_engine.Data.Symbols.{member}
use async_trading_engine.Execution.Http.{Link}
use async_trading_engine.Execution.Client.{Body, Payload, RawPosition}
use async_trading_engine.Execution.Context.{Bot, epic_for}
use async_trading_engine.Execution.Close.{forget_exit, purge_stale_position}
use async_trading_engine.Execution.Close.Reconcile.{
  Match, discard, epics_of, reseed_budget, reconcile_matched, handle_orphan, match_entry,
  match_entries, purge_stale,
}

member-discard :
    (k j : String) (xs : List String)
    → member j (discard k xs) ≡ (if same_key k j then false else member j xs)
unfolding discard
member-discard k j [] = ground arith
member-discard k j (i ∷ xs) =
    ground (arith, same_key_iff i k, same_key_iff i j, same_key_iff k j, member-discard k j xs)

module _ {F : Type 0} where
  -- Whether IG reports a position of an EPIC.
  unfoldable pub has_epic : String → List (RawPosition F) → Bool
  has_epic epic [] = false
  has_epic epic (entry ∷ rest) = if same_key entry.epic epic then true else has_epic epic rest

module _ {F S : Type 0} ⦃d : Float F⦄ where
  -- What the loop keeps for a local position `p` of a symbol with an EPIC: the symbol is live once its
  -- EPIC is claimed, and the EPICs that are left to claim go back to themselves.
  abbrev pub Tracks :
      (String → String) → Dict String → String → String → Position F → Match F S → Type 0
  Tracks epic_of to_candle symbol epic p m =
      (Dict.lookup symbol m.bot.positions ≡ some p)
      × (m.bot.epic_to_candle ≡ to_candle)
      × (member symbol m.live_symbols ≡ not (member epic m.unclaimed_epics))
      × ((e : String) → member e m.unclaimed_epics ≡ true → epic_of (candle_for to_candle e) ≡ e)

  -- Two bots agree on what the loop reads.
  abbrev IsFramed : Bot F S → Bot F S → Type 0
  IsFramed a b = (a.positions ≡ b.positions) × (a.epic_to_candle ≡ b.epic_to_candle)

  handle_orphan-IsFramed :
      (entry : RawPosition F) (bot : Bot F S) → IsFramed (handle_orphan entry bot) bot
  unfolding handle_orphan
  handle_orphan-IsFramed entry bot = ground arith

  reconcile_matched-IsFramed :
      (entry : RawPosition F) (p : Position F) (bot : Bot F S)
      → IsFramed (reconcile_matched entry p bot) bot
  unfolding reconcile_matched reseed_budget
  reconcile_matched-IsFramed entry p bot = ground arith

  match_entry-Tracks :
      (epic_of : String → String) (to_candle : Dict String) (symbol epic : String) (p : Position F)
      → epic_of symbol ≡ epic
      → candle_for to_candle epic ≡ symbol
      → (entry : RawPosition F) (m : Match F S) → Tracks epic_of to_candle symbol epic p m
      → Tracks epic_of to_candle symbol epic p (match_entry entry m)
        × (member symbol (match_entry entry m).live_symbols
            ≡ (if same_key entry.epic epic then true else member symbol m.live_symbols))
  unfolding match_entry
  match_entry-Tracks epic_of to_candle symbol epic p f g entry m (kept, map, live, back) =
      let found = candle_for m.bot.epic_to_candle entry.epic in
      elim (Option-cases (Dict.lookup found m.bot.positions)) [
        | inl h ↦ (
          (
            ground (arith, h, kept, handle_orphan-IsFramed entry m.bot),
            ground (arith, h, map, handle_orphan-IsFramed entry m.bot),
            ground (arith, h, live),
            λ e k. ground (arith, h, k, back e),
          ),
          ground (arith, h, kept, map, f, g, live, same_key_iff entry.epic epic),
        )
        | inr (q, h) ↦ elim (Bool-cases (member entry.epic m.unclaimed_epics)) [
          | inr k ↦ (
            (
              ground (arith, h, k, kept, handle_orphan-IsFramed entry m.bot),
              ground (arith, h, k, map, handle_orphan-IsFramed entry m.bot),
              ground (arith, h, k, live),
              λ e i. ground (arith, h, k, i, back e),
            ),
            ground (arith, h, k, kept, map, f, g, live, same_key_iff entry.epic epic),
          )
          | inl k ↦
              let claimed = record m.bot {
                ig_deal_ids = Dict.insert found entry.deal_id m.bot.ig_deal_ids;
              } in
              let frame = reconcile_matched-IsFramed entry q claimed in
              (
                (
                  ground (arith, h, k, kept, frame),
                  ground (arith, h, k, map, frame),
                  ground (
                    arith,
                    h,
                    k,
                    map,
                    live,
                    f,
                    g,
                    back entry.epic,
                    same_key_iff entry.epic epic,
                    same_key_iff found symbol,
                    member-discard entry.epic epic m.unclaimed_epics,
                  ),
                  λ e i.
                      ground
                        (arith, h, k, i, back e, member-discard entry.epic e m.unclaimed_epics),
                ),
                ground (
                  arith,
                  h,
                  k,
                  map,
                  f,
                  g,
                  back entry.epic,
                  same_key_iff entry.epic epic,
                  same_key_iff found symbol,
                ),
              )
        ]
      ]

  pub match_entries-live :
      (epic_of : String → String) (to_candle : Dict String) (symbol epic : String) (p : Position F)
      → epic_of symbol ≡ epic
      → candle_for to_candle epic ≡ symbol
      → (raw : List (RawPosition F)) (m : Match F S) → Tracks epic_of to_candle symbol epic p m
      → (Dict.lookup symbol (match_entries raw m).bot.positions ≡ some p)
        × (member symbol (match_entries raw m).live_symbols
            ≡ (has_epic epic raw || member symbol m.live_symbols))
  unfolding match_entries has_epic
  match_entries-live epic_of to_candle symbol epic p f g [] m (kept, map, live, back) =
      (kept, ground arith)
  match_entries-live epic_of to_candle symbol epic p f g (entry ∷ rest) m h =
      let (tracks, grown) = match_entry-Tracks epic_of to_candle symbol epic p f g entry m h in
      ground (
        arith,
        grown,
        match_entries-live epic_of to_candle symbol epic p f g rest (match_entry entry m) tracks,
      )

  pub member-epics_of :
      (bot : Bot F S) (symbol : String) (p : Position F) (ps : Dict (Position F))
      → Dict.lookup symbol ps ≡ some p
      → member (epic_for bot symbol) (epics_of bot ps) ≡ true
  unfolding Dict.lookup epics_of
  member-epics_of bot symbol p [] h = ground (arith, h)
  member-epics_of bot symbol p ((s, q) ∷ ps) h = ground (
    arith,
    h,
    same_key_iff s symbol,
    same_key_iff (epic_for bot s) (epic_for bot symbol),
    member-epics_of bot symbol p ps,
  )

  -- Every symbol of the positions comes back from its EPIC.
  abbrev pub IsRoundTrip : Bot F S → Dict (Position F) → Type 0
  IsRoundTrip bot ps =
      (symbol : String)
      → is_some (Dict.lookup symbol ps) ≡ true
      → candle_for bot.epic_to_candle (epic_for bot symbol) ≡ symbol

  pub epics_of-back :
      (bot : Bot F S) (ps : Dict (Position F)) (epic : String)
      → member epic (epics_of bot ps) ≡ true
      → (symbol : String) × (is_some (Dict.lookup symbol ps) ≡ true) × (epic_for bot symbol ≡ epic)
  unfolding Dict.lookup epics_of
  epics_of-back bot [] epic h = ground (arith, h)
  epics_of-back bot ((s, q) ∷ ps) epic h = elim (Bool-cases (same_key (epic_for bot s) epic)) [
    | inl k ↦
        (s, ground (arith, same_key_iff s s), ground (arith, k, same_key_iff (epic_for bot s) epic))
    | inr k ↦
        let (symbol, found, goes) = epics_of-back bot ps epic (ground (arith, h, k)) in
        (symbol, ground (arith, found), goes)
  ]

module _ {F S : Type 0} ⦃d : Float F⦄ (link : Link S (Body F) (Payload F)) where
  lookup-purge_stale_position :
      (stale symbol : String) (p : Position F) (bot : Bot F S)
      → (purge_stale_position link stale p bot).0 ≡ true
      → Dict.lookup symbol (purge_stale_position link stale p bot).1.positions
        ≡ (if same_key stale symbol then none else Dict.lookup symbol bot.positions)
  unfolding purge_stale_position forget_exit
  lookup-purge_stale_position stale symbol p bot h =
      ground (arith, h, Dict.lookup-erase stale symbol bot.positions)

  pub lookup-purge_stale :
      (live : List String) (symbol : String) (ps : Dict (Position F)) (bot after : Bot F S)
      → purge_stale link live ps bot ≡ (true, after)
      → Dict.lookup symbol after.positions ≡ (
          if is_some (Dict.lookup symbol ps) && not (member symbol live)
          then none
          else Dict.lookup symbol bot.positions)
  unfolding purge_stale Dict.lookup
  lookup-purge_stale live symbol [] bot after h = ground (arith, h)
  lookup-purge_stale live symbol ((s, p) ∷ ps) bot after h =
      let purged = purge_stale_position link s p bot in
      elim (Bool-cases (member s live)) [
        | inl k ↦
            ground (arith, h, k, same_key_iff s symbol, lookup-purge_stale live symbol ps bot after)
        | inr k ↦ elim (Bool-cases purged.0) [
          | inl i ↦ ground (
            arith,
            h,
            k,
            i,
            same_key_iff s symbol,
            lookup-purge_stale_position s symbol p bot,
            lookup-purge_stale live symbol ps purged.1 after,
          )
          | inr i ↦ ground (arith, h, k, i)
        ]
      ]
