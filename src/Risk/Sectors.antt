-- ===== src/Risk/Sectors.antt =====
-- src/bot/risk/sectors.py: the concentration bucket of a candle symbol or an IG EPIC.
use async_trading_engine.Base.{none, some, String}
use async_trading_engine.Data.Symbols.{universe, find_symbol, find_epic}

abbrev pub other_sector : String
other_sector = "other"

-- The two maps of the module are built from the universe, so each lookup is one in the universe.
unfoldable pub sector_for : String → String
unfolding universe find_symbol find_epic
sector_for key = elim (find_symbol key universe) [
  | some s ↦ s.sector
  | none ↦ elim (find_epic key universe) [
    | none ↦ other_sector
    | some s ↦ elim (find_symbol s.bot_key universe) [ none ↦ other_sector | some t ↦ t.sector ]
  ]
]
