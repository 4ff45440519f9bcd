-- ===== src/Fec.antt =====
-- hyperagg/fec: forward error correction.
pub mod Xor
pub mod Rs
pub mod Mode
pub mod Adaptive
pub mod Engine
