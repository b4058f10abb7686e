-- ===== src/Domain.antt =====
-- The value types and the rules of `src/domain`.
pub mod FixedBytes
pub mod Names
pub mod Manifest
pub mod ChunkFileNaming
