-- ===== src/Spake2.antt =====
-- web/src/spake2.ts.
pub mod Bytes
pub mod Suite
pub mod Exchange
mod Tests
