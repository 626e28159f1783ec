-- ===== src/Replay.antt =====
-- netreplay/core/replay: frames that are selected, changed and checked before they are sent.
pub mod Bytes
pub mod Checksum
pub mod Remap
pub mod Address
pub mod Validate
pub mod Selection
pub mod Stats
pub mod Timing
pub mod Mutation
mod Tests
