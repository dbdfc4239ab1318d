-- ===== src/Risk/Manager.antt =====
-- src/bot/risk/risk_manager.py: the gatekeeper of every order.
-- Each method takes the clock reading that it makes, and returns the new manager with what it
-- answers and sends. Log output is left out.
pub mod State
pub mod Gates
pub mod Evaluate
pub mod Equity
pub mod Positions
pub mod Persistence
mod Tests
