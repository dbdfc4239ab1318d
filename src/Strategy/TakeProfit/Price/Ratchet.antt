-- ===== src/Strategy/TakeProfit/Price/Ratchet.antt =====
-- The trailing stop never moves down, over any sequence of prices.
use async_trading_engine.Base.{
  ℕ, ◌≡◌, Bool, true, false, Option, none, some, List, [], ◌∷◌, String, arith, Option-cases, inl,
  inr,
}
use async_trading_engine.Base.Dict
use async_trading_engine.Base.Dict.{same_key_iff}
use async_trading_engine.Base.Float.{Float, IsOrdered}
use async_trading_engine.Strategy.TakeProfit.State.{
  TakeProfitConfig, PositionTpState, TakeProfitManager, get_trailing_stop,
}
use async_trading_engine.Strategy.TakeProfit.Price.{
  raise_stop, arm, check_trailing_stop, observe_price, apply_rules, evaluate_state, evaluate_price,
}

-- A price for a symbol, with the time of its evaluation.
pub record Tick (F : Type 0) : Type 0 where
  pub symbol : String
  pub price : F
  pub now : ℕ

module _ {F : Type 0} ⦃d : Float F⦄ where
  open d use {zero, le, lt, add, sub, mul, div, decimal}

  -- There is a stop, and it is at `floor` or above.
  abbrev pub is_at_least : F → Option F → Bool
  is_at_least floor none = false
  is_at_least floor (some stop) = le floor stop

  -- A session of prices.
  pub evaluate_prices : TakeProfitManager F → List (Tick F) → TakeProfitManager F
  evaluate_prices m [] = m
  evaluate_prices m (t ∷ rest) = evaluate_prices (evaluate_price m t.symbol t.price t.now).0 rest

  module _ (laws : IsOrdered F) where
    open laws use {le_trans, le_of_lt, not-lt_of_le, zero-IsNumber}

    raise_stop-ratchet :
        (floor : F) (stop : Option F) (level : F)
        → is_at_least floor stop ≡ true
        → is_at_least floor (raise_stop stop level) ≡ true
    unfolding raise_stop
    raise_stop-ratchet floor none level h = ground arith
    raise_stop-ratchet floor (some old) level h =
        ground (arith, le_of_lt old level, le_trans floor old level)

    arm-ratchet :
        (floor : F) (c : TakeProfitConfig F) (state : PositionTpState F) (profit_pct stop_pct : F)
        → is_at_least floor state.current_trailing_stop ≡ true
        → is_at_least floor (arm c state profit_pct stop_pct).current_trailing_stop ≡ true
    unfolding arm
    arm-ratchet floor c state profit_pct stop_pct h = ground (
      arith,
      h,
      raise_stop-ratchet floor state.current_trailing_stop
          (mul state.peak_price (sub (decimal 1 0) (mul stop_pct c.trail_multiplier))) h,
      raise_stop-ratchet floor state.current_trailing_stop
          (mul state.entry_price (add (decimal 1 0) c.breakeven_buffer)) h,
    )

    evaluate_state-ratchet :
        (floor : F) (c : TakeProfitConfig F) (pred_len : ℕ) (state : PositionTpState F) (price : F)
        (now : ℕ)
        → is_at_least floor state.current_trailing_stop ≡ true
        → is_at_least floor (evaluate_state c pred_len state price now).0.current_trailing_stop
          ≡ true
    unfolding evaluate_state apply_rules check_trailing_stop observe_price
    evaluate_state-ratchet floor c pred_len state price now h =
        let profit = div (sub price state.entry_price) state.entry_price in
        ground
          (arith, h, arm-ratchet floor c (observe_price state price) profit state.entry_stop_pct h)

    evaluate_price-ratchet :
        (floor : F) (m : TakeProfitManager F) (symbol : String) (price : F) (now : ℕ)
        (held : String)
        → is_at_least floor (get_trailing_stop m held) ≡ true
        → is_at_least floor (get_trailing_stop (evaluate_price m symbol price now).0 held) ≡ true
    unfolding evaluate_price get_trailing_stop
    evaluate_price-ratchet floor m symbol price now held h =
        elim (Option-cases (Dict.lookup symbol m.positions)) [
          | inl e ↦ ground (arith, e, h)
          | inr (state, e) ↦
              let next = (evaluate_state m.config m.pred_len state price now).0 in
              ground (
                arith,
                e,
                h,
                same_key_iff symbol held,
                Dict.lookup-insert symbol held next m.positions,
                evaluate_state-ratchet floor m.config m.pred_len state price now,
              )
        ]

    -- Once a position has a trailing stop at some level or above it, no sequence of prices, of this
    -- or other symbols, leaves it with none or with one below that level.
    pub evaluate_prices-ratchet :
        (floor : F) (m : TakeProfitManager F) (ticks : List (Tick F)) (symbol : String)
        → is_at_least floor (get_trailing_stop m symbol) ≡ true
        → is_at_least floor (get_trailing_stop (evaluate_prices m ticks) symbol) ≡ true
    unfolding evaluate_prices
    evaluate_prices-ratchet floor m [] symbol h = h
    evaluate_prices-ratchet floor m (t ∷ rest) symbol h =
        evaluate_prices-ratchet floor (evaluate_price m t.symbol t.price t.now).0 rest symbol
          (evaluate_price-ratchet floor m t.symbol t.price t.now symbol h)
