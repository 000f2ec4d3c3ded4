-- ===== src/Internal.antt =====
-- internal/: the pools of byte buffers.
pub mod Buffers
pub mod Atomic
