-- ===== src/Risk.antt =====
-- trading-engine/risk: the risk manager and the sizing of positions.
pub mod Positions
pub mod Manager
pub mod Trace
pub mod Counting
pub mod Caps
pub mod Piled
pub mod Daily
pub mod Sizing
mod Tests
