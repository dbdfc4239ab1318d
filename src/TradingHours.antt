-- ===== src/TradingHours.antt =====
-- src/bot/trading_hours.py: when a market is open, and the scans over its schedule.
-- A datetime is the number of microseconds since the epoch, in UTC; the `ValueError` on one without
-- a timezone is left out, and so is the default for `now`, which reads the clock.
pub mod Calendar
pub mod Schedule
pub mod Scan
mod Tests
