-- ===== src/Risk/IgMargin.antt =====
-- src/bot/risk/ig_margin.py: the margin class of a symbol and the costs that depend on it.
use async_trading_engine.Base.{◌||◌, none, some, List, [], ◌∷◌, String, if◌then◌else◌}
use async_trading_engine.Base.Float.{Float}
use async_trading_engine.Base.Dict.{same_key}
use async_trading_engine.Data.Symbols.{
  AssetClass, forex_major, forex_minor, index_major, spot_gold, commodity, equity_etf, universe,
  find_symbol, has_piece, member, fx_majors,
}

-- `_TWELVEDATA_FX_SYMBOLS`
abbrev pub twelvedata_fx_symbols : List String
twelvedata_fx_symbols =
    "EUR/USD" ∷ "GBP/USD" ∷ "USD/JPY" ∷ "USD/CHF" ∷ "USD/CAD" ∷ "AUD/USD" ∷ "NZD/USD" ∷ "EUR/GBP"
    ∷ "EUR/JPY" ∷ "GBP/JPY" ∷ "EUR/AUD" ∷ "AUD/JPY" ∷ []

-- `_SYMBOL_ASSET_CLASS`, with the classes of `classify_symbol` for the symbols outside it.
unfoldable pub fallback_class : String → AssetClass
fallback_class symbol =
    if same_key symbol "XAU/USD"
    then spot_gold
    else if member symbol twelvedata_fx_symbols
    then (if member symbol fx_majors then forex_major else forex_minor)
    else if has_piece "/" symbol
    then forex_minor
    else commodity

-- `classify_symbol`
unfoldable pub classify_symbol : String → AssetClass
classify_symbol symbol = elim (find_symbol symbol universe) [
  | some s ↦ s.ig_margin_class
  | none ↦ fallback_class symbol
]

module _ {F : Type 0} ⦃d : Float F⦄ where
  open d use {zero, le, mul, div, decimal}

  -- `MARGIN_RATES`
  unfoldable pub margin_rate : AssetClass → F
  margin_rate forex_major = decimal 333 4
  margin_rate forex_minor = decimal 5 2
  margin_rate index_major = decimal 5 2
  margin_rate spot_gold = decimal 5 2
  margin_rate commodity = decimal 10 2
  margin_rate equity_etf = decimal 20 2

  -- `SLIPPAGE_PCT`
  unfoldable pub slippage_pct : AssetClass → F
  slippage_pct forex_major = decimal 1 4
  slippage_pct forex_minor = decimal 2 4
  slippage_pct index_major = decimal 5 4
  slippage_pct spot_gold = decimal 5 4
  slippage_pct commodity = decimal 10 4
  slippage_pct equity_etf = decimal 10 4

  -- `GUARANTEED_STOP_PREMIUM_PCT`
  unfoldable pub guaranteed_stop_premium_pct : AssetClass → F
  guaranteed_stop_premium_pct commodity = decimal 70 4
  guaranteed_stop_premium_pct equity_etf = decimal 100 4
  guaranteed_stop_premium_pct _ = decimal 30 4

  -- The notional in pounds at a rate, zero where the stake or the level is not positive.
  unfoldable pub rate_of_notional : F → F → F → F
  rate_of_notional size_per_pt ig_level rate =
      if le size_per_pt zero || le ig_level zero then zero else mul (mul size_per_pt ig_level) rate

  unfoldable pub estimate_margin_gbp : String → F → F → F
  unfolding rate_of_notional
  estimate_margin_gbp symbol size_per_pt ig_level =
      rate_of_notional size_per_pt ig_level (margin_rate (classify_symbol symbol))

  unfoldable pub estimate_guaranteed_stop_premium_gbp : String → F → F → F
  unfolding rate_of_notional
  estimate_guaranteed_stop_premium_gbp symbol size_per_pt ig_level =
      rate_of_notional size_per_pt ig_level (guaranteed_stop_premium_pct (classify_symbol symbol))

  unfoldable pub estimate_slippage_pts : String → F → F → F
  estimate_slippage_pts symbol entry_price pip_value =
      if le entry_price zero || le pip_value zero
      then zero
      else div (mul entry_price (slippage_pct (classify_symbol symbol))) pip_value
