-- ===== src/Payload.antt =====
-- What a release may contain: src/manager/payload.
pub mod Paths
