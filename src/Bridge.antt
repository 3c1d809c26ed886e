-- ===== src/Bridge.antt =====
-- mt5-bridge/mt5_bridge: what the bridge checks before an order reaches the terminal.
pub mod Safety
pub mod Server
pub mod Guarded
mod Tests
