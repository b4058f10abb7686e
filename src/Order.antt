-- ===== src/Order.antt =====
-- The load order of mods and the file that keeps it: src/domain/types/order and
-- src/manager/order/OrderFileGateway.
pub mod InstallFolder
pub mod OrderFile
