-- ===== src/Live.antt =====
-- trading-engine/live: the circuit breaker, the engine of one strategy instance and the registry.
pub mod Breaker
pub mod Engine
pub mod Router
pub mod Gate
