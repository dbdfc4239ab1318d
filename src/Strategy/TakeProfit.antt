-- ===== src/Strategy/TakeProfit.antt =====
-- src/bot/strategy/take_profit.py: the exit rules of an open position.
-- A decision is less its text. A method returns the new manager with its answer.
pub mod State
pub mod Price
pub mod Signal
pub mod Snapshot
pub mod Tests
