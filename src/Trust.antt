-- ===== src/Trust.antt =====
-- The publisher keys that the program trusts: `src/manager/trust`.
pub mod Registry
