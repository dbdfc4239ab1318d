-- ===== src/Strategy.antt =====
-- src/bot/strategy: which symbols to hold together, when to leave a position, and the rerank.
pub mod TakeProfit
pub mod Correlation
pub mod TopK
pub mod Rerank
