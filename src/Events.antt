-- ===== src/Events.antt =====
-- netreplay/core/events: the graph of protocol events.
pub mod Closed
pub mod Graph
pub mod Chains
mod Tests
