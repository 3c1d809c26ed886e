-- ===== src/Live/Engine.antt =====
-- trading-engine/live/engine.py: one strategy instance against one broker account.
pub mod Types
pub mod Bar
pub mod Round
pub mod Lifecycle
pub mod Approved
pub mod Gated
pub mod Lots
pub mod Killed
pub mod Closes
pub mod Silent
pub mod Books
pub mod Unseen
pub mod Bars
mod Tests
