-- ===== src/TradingHours/Schedule.antt =====
-- The weekly schedules, and the stricter check before an entry.
pub mod Entry
pub mod Weekend
use async_trading_engine.Base.{
  ℕ, ◌+◌, ◌*◌, Bool, true, false, not, ◌&&◌, Option, none, some, String, if◌then◌else◌, ltb, leb,
  eqb,
}
use async_trading_engine.Data.Symbols.{
  CoarseAssetClass, forex, metal, equity, universe, find_symbol, fx, fx_sector,
}
use async_trading_engine.TradingHours.Calendar.{hour, minute, weekday, is_us_equity_holiday}

-- `hm`: minutes since midnight.
abbrev pub hm : ℕ → ℕ
hm dt = hour dt * 60 + minute dt

-- `symbol in _FOREX`, `symbol in _METALS` and `symbol in _US_EQUITY`, which are built from the
-- universe, whose keys are distinct.
unfoldable pub class_of : String → Option CoarseAssetClass
unfolding universe find_symbol fx fx_sector
class_of symbol = elim (find_symbol symbol universe) [ none ↦ none | some s ↦ some s.asset_class ]

unfoldable pub forex_open : ℕ → Bool
forex_open dt =
    if eqb (weekday dt) 6
    then false
    else if eqb (weekday dt) 7
    then leb (21 * 60) (hm dt)
    else if eqb (weekday dt) 5
    then ltb (hm dt) (21 * 60)
    else true

unfoldable pub metals_open : ℕ → Bool
metals_open dt =
    if eqb (weekday dt) 6
    then false
    else if eqb (weekday dt) 7
    then leb (23 * 60) (hm dt)
    else if eqb (weekday dt) 5
    then ltb (hm dt) (22 * 60)
    else not (leb (22 * 60) (hm dt) && ltb (hm dt) (23 * 60))

unfoldable pub us_equity_open : ℕ → Bool
us_equity_open dt =
    if leb 6 (weekday dt)
    then false
    else if is_us_equity_holiday dt
    then false
    else leb (14 * 60 + 30) (hm dt) && ltb (hm dt) (21 * 60)

-- The schedule of a class; a symbol that is in none is always open.
unfoldable pub open_at : Option CoarseAssetClass → ℕ → Bool
open_at none dt = true
open_at (some forex) dt = forex_open dt
open_at (some metal) dt = metals_open dt
open_at (some equity) dt = us_equity_open dt

unfoldable pub is_market_open : String → ℕ → Bool
is_market_open symbol dt = open_at (class_of symbol) dt

-- `market_category`
unfoldable pub market_category : String → String
market_category symbol = elim (class_of symbol) [
  | none ↦ "other"
  | some forex ↦ "forex"
  | some metal ↦ "metals"
  | some equity ↦ "us_equity"
]

-- The window around the daily break of the class.
unfoldable pub in_entry_buffer : Option CoarseAssetClass → ℕ → Bool
in_entry_buffer (some forex) dt = leb (21 * 60 + 50) (hm dt) && ltb (hm dt) (22 * 60 + 10)
in_entry_buffer (some metal) dt = leb (21 * 60 + 55) (hm dt) && leb (hm dt) (23 * 60 + 5)
in_entry_buffer _ dt = false

unfoldable pub is_safe_for_entry : String → ℕ → Bool
is_safe_for_entry symbol dt = is_market_open symbol dt && not (in_entry_buffer (class_of symbol) dt)

unfoldable pub in_equity_mark_blackout : ℕ → Bool
in_equity_mark_blackout dt = leb (21 * 60 + 50) (hm dt) && leb (hm dt) (23 * 60 + 5)
