-- ===== src/Storage.antt =====
-- The storage policies of netreplay/core/storage.
pub mod Flush
