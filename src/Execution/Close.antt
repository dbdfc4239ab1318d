-- ===== src/Execution/Close.antt =====
-- src/bot/execution/ig_close.py: closing positions, and the reconciliation with what IG reports.
pub mod Reconcile
pub mod Sync
pub mod Kept
pub mod Outcomes
pub mod Openings
pub mod Tests
use async_trading_engine.Base.{
  ℕ, Bool, true, false, Option, none, some, List, [], ◌∷◌, String, if◌then◌else◌, ◌&&◌, ◌||◌,
  is_some,
}
use async_trading_engine.Base.Float.{Float, div?}
use async_trading_engine.Base.Dict
use async_trading_engine.Base.Dict.{same_key}
use async_trading_engine.Core.Models.{
  Result, ok, failed, Failure, closed_failure, exchange_failure, connection_failure, other_failure,
  Position, OrderResult, sell,
}
use async_trading_engine.Execution.Http.{Link}
use async_trading_engine.Execution.Client.{Body, Payload, Transaction, or_else}
use async_trading_engine.Execution.Client.Calls.{close_position, fetch_closed_transaction}
use async_trading_engine.Execution.Context.{Bot, epic_for, handle_order_filled}
use async_trading_engine.Execution.QuoteScale.{ig_quote_scale}
use async_trading_engine.Risk.Manager.Positions.{drop_position, clear_risk_budget}
use async_trading_engine.Strategy.TakeProfit.State.{TakeProfitManager, deregister_position}

-- What `close_ig_position` returns: a float, `False`, or `None`.
pub data CloseResult (F : Type 0) : Type 0 where
  closed_at : F → CloseResult F
  close_failed : CloseResult F
  deferred : CloseResult F

-- `tp_manager.deregister_position`, where there is a manager.
unfoldable pub forget_exit : {F S : Type 0} → String → Bot F S → Bot F S
forget_exit symbol bot = elim bot.tp_manager [
  | none ↦ bot
  | some manager ↦ record bot { tp_manager = some (deregister_position manager symbol) }
]

module _ {F S : Type 0} ⦃d : Float F⦄ where
  open d use {zero, le, lt, sub, mul}

  -- The profit of a position in parts of its entry price, if its price is known.
  unfoldable pub pnl_pct_of : String → Bot F S → Option F
  pnl_pct_of symbol bot = elim (Dict.lookup symbol bot.positions) [
    | none ↦ none
    | some p ↦ elim (Dict.lookup symbol bot.latest_close) [
      | none ↦ none
      | some close ↦
          if le p.entry_price zero
          then none
          else div? (sub (mul close (ig_quote_scale symbol)) p.entry_price) p.entry_price
    ]
  ]

  -- The loop of `pick_worst_performer` with the worst so far.
  unfoldable pub pick_from : Bot F S → Option (String × F) → List String → Option (String × F)
  unfolding pnl_pct_of
  pick_from bot worst [] = worst
  pick_from bot none (symbol ∷ rest) = elim (pnl_pct_of symbol bot) [
    | none ↦ pick_from bot none rest
    | some pct ↦ pick_from bot (some (symbol, pct)) rest
  ]
  pick_from bot (some (worst, worst_pct)) (symbol ∷ rest) = elim (pnl_pct_of symbol bot) [
    | none ↦ pick_from bot (some (worst, worst_pct)) rest
    | some pct ↦
        pick_from bot (if lt pct worst_pct then some (symbol, pct) else some (worst, worst_pct))
          rest
  ]

  unfoldable pub pick_worst_performer : List String → Bot F S → Option String
  unfolding pick_from
  pick_worst_performer symbols bot = elim (pick_from bot none symbols) [
    | none ↦ none
    | some (symbol, pct) ↦ some symbol
  ]

-- The result of a close that raised.
unfoldable pub close_error : {F : Type 0} → Failure → CloseResult F
close_error (closed_failure message) = deferred
close_error (exchange_failure error_type message) = close_failed
close_error connection_failure = close_failed
close_error other_failure = close_failed

module _ {F : Type 0} ⦃d : Float F⦄ where
  open d use {zero, le, lt}

  -- A division by the entry price raises.
  abbrev pub is_zero_entry : Position F → Bool
  is_zero_entry p = le p.entry_price zero && le zero p.entry_price

  abbrev has_level : Option (Transaction F) → Bool
  has_level none = false
  has_level (some t) = lt zero (or_else t.close_level zero)

  -- Whether `_resolve_external_close_summary` divides by a zero entry price: it does so for a
  -- transaction with a positive level, and otherwise for a candle of the symbol.
  unfoldable pub is_summary_refused : Option (Transaction F) → Option F → Position F → Bool
  is_summary_refused transaction latest p =
      (is_some latest || has_level transaction) && is_zero_entry p

module _ {F S : Type 0} ⦃d : Float F⦄ (link : Link S (Body F) (Payload F)) where
  -- `close_ig_position`; an empty deal id is as none.
  unfoldable pub close_ig_position : String → Position F → Bot F S → CloseResult F × Bot F S
  unfolding close_error
  close_ig_position symbol current bot =
      let deal_id = Dict.get_or symbol "" bot.ig_deal_ids in
      elim (same_key deal_id "") [
        | true ↦ (close_failed, bot)
        | false ↦
            let r = close_position link deal_id sell current.quantity bot.net in
            let after = record bot { net = r.1 } in
            elim r.0 [
              | failed e ↦ (close_error e, after)
              | ok fill ↦ (
                closed_at fill.average_price,
                handle_order_filled link fill
                    (record after { ig_deal_ids = Dict.erase symbol after.ig_deal_ids }),
              )
            ]
      ]

  -- `_purge_stale_position`; `false` is the exception of the summary. The alert is sent.
  unfoldable pub purge_stale_position : String → Position F → Bot F S → Bool × Bot F S
  unfolding is_summary_refused
  purge_stale_position symbol p bot =
      let found = fetch_closed_transaction link p.opened_at bot.net in
      let asked = record bot { net = found.1 } in
      if is_summary_refused found.0 (Dict.lookup symbol bot.latest_close) p
      then (false, asked)
      else (
        true,
        forget_exit symbol (record asked {
          alerts = symbol ∷ asked.alerts;
          positions = Dict.erase symbol asked.positions;
          risk_manager =
              clear_risk_budget (drop_position asked.risk_manager (epic_for asked symbol)).0
                (epic_for asked symbol);
          ig_deal_ids = Dict.erase symbol asked.ig_deal_ids;
        }),
      )
