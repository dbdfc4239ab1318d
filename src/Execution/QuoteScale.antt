-- ===== src/Execution/QuoteScale.antt =====
-- src/bot/execution/ig_quote_scale.py: the conversion between prices of candles and levels of IG.
use async_trading_engine.Base.{none, some, String, if◌then◌else◌}
use async_trading_engine.Base.Float.{Float}
use async_trading_engine.Base.Dict.{same_key}
use async_trading_engine.Data.Symbols.{Literal, literal, universe, find_symbol, has_piece}

-- `ig_pip_value`, as the literal of the source
unfoldable pub pip_literal : String → Literal
pip_literal symbol = elim (find_symbol symbol universe) [
  | some s ↦ s.ig_pip_value
  | none ↦
      if same_key symbol "XAU/USD"
      then literal 1 0
      else if has_piece "JPY" symbol
      then literal 1 2
      else literal 1 4
]

module _ {F : Type 0} ⦃d : Float F⦄ where
  open d use {div, decimal}

  unfoldable pub value_of : Literal → F
  value_of (literal digits places) = decimal digits places

  -- `ig_pip_value`
  unfoldable pub ig_pip_value : String → F
  unfolding value_of
  ig_pip_value symbol = value_of (pip_literal symbol)

  -- `ig_quote_scale`; no pip value is zero.
  unfoldable pub ig_quote_scale : String → F
  ig_quote_scale symbol = div (decimal 1 0) (ig_pip_value symbol)

  -- `ig_level_to_display_price`
  unfoldable pub ig_level_to_display_price : String → F → F
  ig_level_to_display_price symbol level = div level (ig_quote_scale symbol)

  -- `ig_display_price`
  unfoldable pub ig_display_price : String → F → F
  ig_display_price symbol level =
      if same_key symbol "XAU/USD"
      then div level (decimal 1 0)
      else if same_key symbol "XAG/USD"
      then div level (decimal 1 0)
      else ig_level_to_display_price symbol level
