-- ===== src/Execution.antt =====
-- src/bot/execution: the broker client, entries and closes.
pub mod Http
pub mod Script
pub mod QuoteScale
pub mod Context
pub mod Entry
pub mod Close
pub mod Client
