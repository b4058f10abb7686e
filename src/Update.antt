-- ===== src/Update.antt =====
-- Updates of the program: src/manager/update.
pub mod DownloadHostPolicy
pub mod VersionNumber
