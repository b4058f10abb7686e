-- ===== src/Tests.antt =====
-- The theorems at concrete inputs.
mod Data
mod Gossip
mod Sharing
mod Codecs
mod Content
mod Network
mod Storage
mod Locator
mod Jobs
mod Audits
mod Downloads
