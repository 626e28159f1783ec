-- ===== src/Flows.antt =====
-- netreplay/core/flows: the flow engine.
pub mod Serial
pub mod Stream
pub mod TcpState
pub mod Tracker
pub mod Lifecycle
pub mod Metrics
pub mod Conversation
mod Tests
