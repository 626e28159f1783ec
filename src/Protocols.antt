-- ===== src/Protocols.antt =====
-- netreplay/core/protocols: what the payloads and the reassembled streams say.
pub mod Framing
pub mod Hex
pub mod Tls
pub mod TlsHello
pub mod TlsStream
pub mod Http2
pub mod Split
pub mod Http
pub mod Http1
pub mod Quic
pub mod Streams
mod Tests
