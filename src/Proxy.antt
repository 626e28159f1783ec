-- ===== src/Proxy.antt =====
-- netreplay/core/proxy: the live bridge between two interfaces.
pub mod Bridge
mod Tests
