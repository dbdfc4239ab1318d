-- ===== src/Data.antt =====
-- src/bot/data: the symbol universe, the candle aggregation and the store of candles.
pub mod Symbols
pub mod Candles
pub mod Store
pub mod SignalHistory
