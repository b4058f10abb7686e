-- ===== src/Transfer.antt =====
-- The torrent transfer: src/downloader/transfer.
pub mod FetchState
pub mod SeedRoster
