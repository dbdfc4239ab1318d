-- ===== src/Core/Handlers/Margin.antt =====
-- What the margin breaker does to the positions.
use async_trading_engine.Base.{
  ◌≤◌, ◌≡◌, refl, true, some, List, [], ◌∷◌, String, arith, inl, inr, Bool-cases, Option-cases, All,
}
use mathlib.Core.Path.{subst}
use async_trading_engine.Base.Float.{Float, IsNumber, IsOrdered}
use async_trading_engine.Core.Models.{
  AccountUpdate, MarginAction, halt_entries, close_worst, flatten, liquidation_alert, Message,
  risk_alert, margin_breaker, shutdown,
}
use async_trading_engine.Core.Handlers.{
  Wired, handle_account_update, flatten_all, act_on_margin, handle_margin_breaker, handle_message,
  handle_messages, account_push,
}
use async_trading_engine.Execution.Http.{Link}
use async_trading_engine.Execution.Client.{Body, Payload}
use async_trading_engine.Execution.Client.Openings.{openings}
use async_trading_engine.Execution.Context.{Bot}
use async_trading_engine.Execution.Close.{pnl_pct_of, pick_from, pick_worst_performer}
use async_trading_engine.Execution.Close.Openings.{openings-request_close}
use async_trading_engine.Strategy.Rerank.Exits.{held_symbols, close_for_exit}

module _ {F S : Type 0} ⦃d : Float F⦄ (laws : IsOrdered F) where
  open d use {le, lt}

  -- A result at or above the worst, where it is known.
  abbrev AtLeast : F → Bot F S → String → Type 0
  AtLeast worst bot x = (pct : F) → pnl_pct_of x bot ≡ some pct → le worst pct ≡ true

  -- All known results are numbers.
  abbrev pub AreNumbers : Bot F S → List String → Type 0
  AreNumbers bot symbols = All (λ x. (pct : F) → pnl_pct_of x bot ≡ some pct → IsNumber pct) symbols

  -- What the loop ends with, from the worst so far: a symbol with its result, which is not above the
  -- worst so far nor above any result of the list.
  pick_from-least :
      (bot : Bot F S) (symbols : List String) (w : String) (pct : F)
      → IsNumber pct
      → AreNumbers bot symbols
      → pnl_pct_of w bot ≡ some pct
      → (name : String) × (worst : F) × (pick_from bot (some (w, pct)) symbols ≡ some (name, worst))
        × (pnl_pct_of name bot ≡ some worst)
        × (le worst pct ≡ true)
        × All (AtLeast worst bot) symbols
  unfolding pick_from
  pick_from-least bot [] w pct n ns e = (w, pct, refl, e, n, tt)
  pick_from-least bot (x ∷ rest) w pct n (nx, ns) e = elim (Option-cases (pnl_pct_of x bot)) [
    | inl k ↦
        let (name, worst, found, has, below, others) = pick_from-least bot rest w pct n ns e in
        (name, worst, ground (arith, found, k), has, below, ((λ q h. ground (arith, h, k)), others))
    | inr (q, k) ↦ elim (Bool-cases (lt q pct)) [
      | inl l ↦
          let (name, worst, found, has, below, others) =
            pick_from-least bot rest x q (nx q k) ns k in
          (
            name,
            worst,
            ground (arith, found, k, l),
            has,
            laws.le_trans worst q pct below (laws.le_of_lt q pct l),
            ((λ q' h. ground (arith, h, k, below)), others),
          )
      | inr l ↦
          let (name, worst, found, has, below, others) = pick_from-least bot rest w pct n ns e in
          let above = laws.le_of_not_lt pct q n (nx q k) l in
          (
            name,
            worst,
            ground (arith, found, k, l),
            has,
            below,
            ((λ q' h. ground (arith, h, k, laws.le_trans worst pct q below above)), others),
          )
    ]
  ]

  -- The worst performer of a list is one whose result is known, and no other result of the list that
  -- is known is below its; when all of them are numbers.
  pub pick_worst_performer-least :
      (bot : Bot F S) (symbols : List String) (w : String)
      → AreNumbers bot symbols
      → pick_worst_performer symbols bot ≡ some w
      → (worst : F) × (pnl_pct_of w bot ≡ some worst) × All (AtLeast worst bot) symbols
  unfolding pick_worst_performer pick_from
  pick_worst_performer-least bot [] w ns h = ground (arith, h)
  pick_worst_performer-least bot (x ∷ rest) w (nx, ns) h = elim (Option-cases (pnl_pct_of x bot)) [
    | inl k ↦
        let (worst, has, others) =
          pick_worst_performer-least bot rest w ns (ground (arith, h, k)) in
        (worst, has, ((λ q e. ground (arith, e, k)), others))
    | inr (q, k) ↦
        let (name, worst, found, has, below, others) = pick_from-least bot rest x q (nx q k) ns k in
        let same : name ≡ w = ground (arith, h, k, found) in
        (
          worst,
          subst (λ n. pnl_pct_of n bot ≡ some worst) same has,
          ((λ q' e. ground (arith, e, k, below)), others),
        )
  ]

module _ {F S : Type 0} ⦃d : Float F⦄ (link : Link S (Body F) (Payload F)) where
  openings-flatten_all :
      (symbols : List String) (bot : Bot F S)
      → openings (flatten_all link symbols bot).net ≤ openings bot.net
  unfolding flatten_all close_for_exit
  openings-flatten_all [] bot = omega arith
  openings-flatten_all (symbol ∷ rest) bot =
      let r = close_for_exit link symbol bot in
      let few = openings-request_close link symbol bot in
      elim (Bool-cases r.0) [
        | inl h ↦ ground (arith, h, few, openings-flatten_all rest r.1)
        | inr h ↦ ground (arith, h, few)
      ]

  openings-act_on_margin :
      (action : MarginAction) (bot : Bot F S)
      → openings (act_on_margin link action bot).net ≤ openings bot.net
  unfolding act_on_margin
  openings-act_on_margin halt_entries bot = omega arith
  openings-act_on_margin liquidation_alert bot = omega arith
  openings-act_on_margin close_worst bot =
      elim (Option-cases (pick_worst_performer (held_symbols bot) bot)) [
        | inl h ↦ ground (arith, h)
        | inr (worst, h) ↦ ground (arith, h, openings-request_close link worst bot)
      ]
  openings-act_on_margin flatten bot = openings-flatten_all (held_symbols bot) bot

  openings-handle_messages :
      (messages : List (Message F)) (w : Wired F S)
      → openings (handle_messages link messages w).bot.net ≤ openings w.bot.net
  unfolding handle_messages handle_message handle_margin_breaker
  openings-handle_messages [] w = omega arith
  openings-handle_messages (risk_alert event ∷ rest) w =
      openings-handle_messages rest (handle_message link (risk_alert event) w)
  openings-handle_messages (shutdown reason ∷ rest) w =
      openings-handle_messages rest (handle_message link (shutdown reason) w)
  openings-handle_messages (margin_breaker event ∷ rest) w = omega (
    arith,
    openings-handle_messages rest (handle_message link (margin_breaker event) w),
    openings-act_on_margin event.action (record w.bot { alerts = "margin_breaker" ∷ w.bot.alerts }),
  )

  -- A push of the account opens no position, whatever the breaker makes of it and whatever IG answers
  -- to the closes.
  pub openings-account_push :
      (u : AccountUpdate F) (w : Wired F S)
      → openings (account_push link u w).bot.net ≤ openings w.bot.net
  unfolding account_push handle_account_update
  openings-account_push u w =
      let pushed = handle_account_update link u w.bot in
      openings-handle_messages pushed.outbox (record w { bot = record pushed { outbox = [] } })
