-- ===== src/Core.antt =====
-- src/bot/core: the data that the other packages exchange, and how the parts are wired together.
pub mod Models
pub mod Wiring
pub mod Handlers
pub mod EventBus
