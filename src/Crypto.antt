-- ===== src/Crypto.antt =====
-- web/src/crypto.ts.
pub mod Base64url
pub mod Primitives
pub mod Envelope
pub mod KeyExchange
mod Tests
