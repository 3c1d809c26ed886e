-- ===== src/Broker.antt =====
-- trading-engine/broker: the uniform interface of brokers and the simulated one.
pub mod Types
pub mod Paper
pub mod Quote
pub mod Tickets
pub mod Kept
pub mod Calls
pub mod CloseAll
pub mod Stops
pub mod Books
mod Tests
