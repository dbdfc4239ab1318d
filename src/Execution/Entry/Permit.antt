-- ===== src/Execution/Entry/Permit.antt =====
-- No order is sent unless every gate of the entry lets it pass.
use async_trading_engine.Base.{
  ◌+◌, ◌*◌, ◌≤◌, true, false, not, ◌&&◌, some, String, ◌≡◌, ◌⊎◌, inl, inr, arith, is_some,
  Bool-cases, Option-cases,
}
use async_trading_engine.Base.Dict
use async_trading_engine.Base.Float.{Float}
use async_trading_engine.Core.Models.{ok, OrderRequest}
use async_trading_engine.Data.Symbols.{member}
use async_trading_engine.Execution.Http.{Link}
use async_trading_engine.Execution.Http.Once.{Result-cases}
use async_trading_engine.Execution.Client.{Body, Payload, Balance}
use async_trading_engine.Execution.Client.Openings.{openings}
use async_trading_engine.Execution.Context.{Bot, epic_for, find_signal, now_of, refresh_balance}
use async_trading_engine.Execution.Context.Openings.{openings-refresh_balance}
use async_trading_engine.Execution.Entry.{prepare_entry_order}
use async_trading_engine.Execution.Entry.Attempt.{stop_of, attempt_topk_entry, maybe_enter}
use async_trading_engine.Execution.Entry.Cleared.{IsApproved, openings-judge_entry}
use async_trading_engine.Risk.SpreadMonitor.{Statistics}
use async_trading_engine.TradingHours.Schedule.{is_safe_for_entry}

module _ {F S : Type 0} ⦃d : Float F⦄ (s : Statistics F) (link : Link S (Body F) (Payload F)) where
  open d use {zero, le}

  -- With a fresh balance, a positive stop and a stake to propose, the order is approved, the spread
  -- is no obstacle, the market trades, and the stake is not below its minimum.
  abbrev pub IsPermitted : String → F → Bot F S → Type 0
  IsPermitted symbol current_price bot =
      let fresh = (refresh_balance link bot).1 in
      let signal = find_signal symbol fresh.topk_signals in
      (balance : Balance F) × (proposed : OrderRequest F) × ((refresh_balance link bot).0
        ≡ ok balance)
      × (le (stop_of s link fresh signal) zero ≡ false)
      × (prepare_entry_order fresh.risk_manager symbol (epic_for fresh symbol) current_price
            balance.equity (stop_of s link fresh signal)
          ≡ some proposed)
      × IsApproved s link symbol current_price signal balance proposed fresh

  openings-attempt_topk_entry :
      (symbol : String) (current_price : F) (bot : Bot F S)
      → (openings (attempt_topk_entry s link symbol current_price bot).net ≤ openings bot.net)
        ⊎ (IsPermitted symbol current_price bot
            × (openings (attempt_topk_entry s link symbol current_price bot).net
                ≤ 2 + openings bot.net))
  unfolding attempt_topk_entry
  openings-attempt_topk_entry symbol current_price bot =
      let fresh = (refresh_balance link bot).1 in
      let signal = find_signal symbol fresh.topk_signals in
      let stop_pct = stop_of s link fresh signal in
      let few = openings-refresh_balance link bot in
      elim (Result-cases (refresh_balance link bot).0) [
        | inr (e, h) ↦ inl (ground (arith, h, few))
        | inl (balance, h) ↦ elim (Bool-cases (le stop_pct zero)) [
          | inl k ↦ inl (ground (arith, h, k, few))
          | inr k ↦
              elim (Option-cases (
                prepare_entry_order fresh.risk_manager symbol (epic_for fresh symbol) current_price
                  balance.equity stop_pct)) [
                    | inl p ↦ inl (ground (arith, h, k, p, few))
                    | inr (proposed, p) ↦
                        elim (openings-judge_entry s link symbol current_price signal balance
                          proposed fresh) [
                            | inl less ↦ inl (ground (arith, h, k, p, few, less))
                            | inr (approved, less) ↦ inr (
                              (balance, proposed, h, k, p, approved),
                              ground (arith, h, k, p, few, less),
                            )
                          ]
                  ]
        ]
      ]

  -- The gates before the lock and under it.
  abbrev pub IsWanted : String → Bot F S → Bot F S → Type 0
  IsWanted symbol bot locked =
      (bot.topk_scanned ≡ true)
      × (member symbol bot.topk_selected ≡ true)
      × (is_safe_for_entry symbol (now_of link bot * 1000) ≡ true)
      × (is_some (Dict.lookup symbol locked.positions) ≡ false)
      × (member symbol locked.topk_selected ≡ true)

  -- An entry changes nothing, or it opens no position beyond those that were open when it got the
  -- lock, or every gate let it pass, and then it opens at most two.
  pub maybe_enter-IsPermitted :
      (peers : Bot F S → Bot F S) (symbol : String) (current_price : F) (bot : Bot F S)
      → (maybe_enter s link peers symbol current_price bot ≡ bot)
        ⊎ (openings (maybe_enter s link peers symbol current_price bot).net
            ≤ openings (peers bot).net)
        ⊎ (IsWanted symbol bot (peers bot)
            × IsPermitted symbol current_price (peers bot)
            × (openings (maybe_enter s link peers symbol current_price bot).net
                ≤ 2 + openings (peers bot).net))
  unfolding maybe_enter
  maybe_enter-IsPermitted peers symbol current_price bot =
      let locked = peers bot in
      elim (Bool-cases (
        bot.topk_scanned
        && member symbol bot.topk_selected
        && is_safe_for_entry symbol (now_of link bot * 1000))) [
          | inr h ↦ inl (ground (arith, h))
          | inl h ↦
              elim (Bool-cases (
                not (is_some (Dict.lookup symbol locked.positions))
                && member symbol locked.topk_selected)) [
                  | inr k ↦ inr (inl (ground (arith, h, k)))
                  | inl k ↦ elim (openings-attempt_topk_entry symbol current_price locked) [
                    | inl few ↦ inr (inl (ground (arith, h, k, few)))
                    | inr (permitted, few) ↦
                        inr (inr (ground (arith, h, k), permitted, ground (arith, h, k, few)))
                  ]
                ]
        ]
