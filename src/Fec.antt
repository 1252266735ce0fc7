-- ===== src/Fec.antt =====
-- fec: forward error correction.
pub mod Bits
pub mod Xor
pub mod ReedSolomon
mod Tests
mod Examples
