-- ===== src/Risk.antt =====
-- src/bot/risk: the checks that every order passes, and the trackers behind them.
pub mod Config
pub mod Drawdown
pub mod LossWindows
pub mod Fscs
pub mod Margin
pub mod Budgets
pub mod Sectors
pub mod Sizing
pub mod Manager
mod Tests
pub mod IgMargin
pub mod SpreadMonitor
pub mod ScaleGuard
pub mod Funding
