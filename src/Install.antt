-- ===== src/Install.antt =====
-- What has to be done to install a release, and to check an installed one:
-- src/domain/types/distribution/InstallPlan and src/manager/install.
pub mod Plan
pub mod Differ
pub mod Auditor
pub mod StagedFiles
pub mod FetchPlanner
