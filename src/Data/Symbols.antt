-- ===== src/Data/Symbols.antt =====
-- src/bot/data/eodhd_symbols.py: the universe of symbols. The EODHD subscription fields
-- (`eodhd_rest`, `ws_endpoint`) are left out: nothing that is modelled reads them.
use text.Mathlib.Text.{starts_with, find?}
use Prim.Native.String.{slice, len}
use async_trading_engine.Base.{
  ◌-◌, ℕ, Bool, true, false, Option, none, some, List, [], ◌∷◌, String, if◌then◌else◌, is_some,
}
use async_trading_engine.Base.Dict.{same_key}

pub data AssetClass : Type 0 where
  forex_major forex_minor index_major spot_gold commodity equity_etf : AssetClass

-- `CoarseAssetClass`
pub data CoarseAssetClass : Type 0 where
  forex metal equity : CoarseAssetClass

-- The decimal literal `digits / 10 ** places` of the source.
pub data Literal : Type 0 where
  literal : ℕ → ℕ → Literal

pub record EodhdSymbol : Type 0 where
  pub bot_key : String
  pub ig_epic : String
  pub asset_class : CoarseAssetClass
  pub has_volume : Bool
  pub ig_pip_value : Literal
  pub ig_margin_class : AssetClass
  pub sector : String

-- `key in keys`, for a set of texts
abbrev pub member : String → List String → Bool
member k [] = false
member k (j ∷ keys) = if same_key j k then true else member k keys

abbrev pub fx_majors : List String
fx_majors =
    "EUR/USD" ∷ "GBP/USD" ∷ "USD/JPY" ∷ "USD/CHF" ∷ "USD/CAD" ∷ "AUD/USD" ∷ "NZD/USD" ∷ "EUR/GBP"
    ∷ "EUR/JPY" ∷ "GBP/JPY" ∷ []

-- `piece in text`
abbrev pub has_piece : String → String → Bool
has_piece piece text = is_some (find? text piece)

-- `text.endswith(piece)`
abbrev pub ends_with : String → String → Bool
ends_with text piece = same_key (slice text (len text - len piece) (len text)) piece

unfoldable pub fx_sector : String → String
fx_sector bot_key =
    if has_piece "USD" bot_key
    then "fx_usd"
    else if starts_with bot_key "EUR/"
    then "fx_eur_cross"
    else if starts_with bot_key "GBP/"
    then "fx_gbp_cross"
    else "fx_jpy_cross"

-- `_fx`
unfoldable pub fx : String → String → EodhdSymbol
unfolding fx_sector
fx bot_key ig_epic = record {
  bot_key = bot_key;
  ig_epic = ig_epic;
  asset_class = forex;
  has_volume = false;
  ig_pip_value = if ends_with bot_key "/JPY" then literal 1 2 else literal 1 4;
  ig_margin_class = if member bot_key fx_majors then forex_major else forex_minor;
  sector = fx_sector bot_key;
}

-- `_metal`
abbrev pub metal_symbol : String → String → Literal → AssetClass → EodhdSymbol
metal_symbol bot_key ig_epic pip margin_class = record {
  bot_key = bot_key;
  ig_epic = ig_epic;
  asset_class = metal;
  has_volume = true;
  ig_pip_value = pip;
  ig_margin_class = margin_class;
  sector = "metals";
}

-- `_eq`
abbrev pub eq : String → String → String → EodhdSymbol
eq bot_key ig_epic sector = record {
  bot_key = bot_key;
  ig_epic = ig_epic;
  asset_class = equity;
  has_volume = true;
  ig_pip_value = literal 1 2;
  ig_margin_class = equity_etf;
  sector = sector;
}

-- The values of `EODHD_UNIVERSE`, in order: `_FX`, `_METALS` and `_EQUITIES`.
unfoldable pub universe : List EodhdSymbol
universe =
    fx "EUR/USD" "CS.D.EURUSD.TODAY.IP"
    ∷ fx "GBP/USD" "CS.D.GBPUSD.TODAY.IP"
    ∷ fx "USD/JPY" "CS.D.USDJPY.TODAY.IP"
    ∷ fx "USD/CHF" "CS.D.USDCHF.TODAY.IP"
    ∷ fx "USD/CAD" "CS.D.USDCAD.TODAY.IP"
    ∷ fx "AUD/USD" "CS.D.AUDUSD.TODAY.IP"
    ∷ fx "NZD/USD" "CS.D.NZDUSD.TODAY.IP"
    ∷ fx "EUR/GBP" "CS.D.EURGBP.TODAY.IP"
    ∷ fx "EUR/JPY" "CS.D.EURJPY.TODAY.IP"
    ∷ fx "GBP/JPY" "CS.D.GBPJPY.TODAY.IP"
    ∷ fx "AUD/JPY" "CS.D.AUDJPY.TODAY.IP"
    ∷ fx "EUR/AUD" "CS.D.EURAUD.TODAY.IP"
    ∷ metal_symbol "XAU/USD" "CS.D.USCGC.TODAY.IP" (literal 1 0) spot_gold
    ∷ metal_symbol "XAG/USD" "CS.D.USCSI.TODAY.IP" (literal 1 0) commodity
    ∷ eq "F" "SC.D.F.DAILY.IP" "equity_consumer"
    ∷ eq "T" "SG.D.T.DAILY.IP" "equity_comm"
    ∷ eq "PFE" "SE.D.PFE.DAILY.IP" "equity_health"
    ∷ eq "VZ" "SH.D.VZ.DAILY.IP" "equity_comm"
    ∷ eq "NKE" "SE.D.NKE.DAILY.IP" "equity_consumer"
    ∷ eq "BAC" "SA.D.BAC.DAILY.IP" "equity_financials"
    ∷ eq "BMY" "SA.D.BMYUS.DAILY.IP" "equity_health"
    ∷ eq "MO" "SE.D.MO.DAILY.IP" "equity_staples"
    ∷ eq "KO" "SD.D.KO.DAILY.IP" "equity_staples"
    ∷ eq "WFC" "SH.D.WFC.DAILY.IP" "equity_financials"
    ∷ eq "CVS" "SB.D.CVS.DAILY.IP" "equity_health"
    ∷ eq "INTC" "UB.D.INTC.DAILY.IP" "equity_tech"
    ∷ eq "CSCO" "UA.D.CSCO.DAILY.IP" "equity_tech"
    ∷ eq "XOM" "SH.D.XOM.DAILY.IP" "equity_energy"
    ∷ []

-- `EODHD_UNIVERSE.get(symbol)`
unfoldable pub find_symbol : String → List EodhdSymbol → Option EodhdSymbol
find_symbol k [] = none
find_symbol k (s ∷ rest) = if same_key s.bot_key k then some s else find_symbol k rest

-- `_EPIC_TO_SYMBOL.get(key)`, as the symbol of that EPIC.
unfoldable pub find_epic : String → List EodhdSymbol → Option EodhdSymbol
find_epic k [] = none
find_epic k (s ∷ rest) = if same_key s.ig_epic k then some s else find_epic k rest
