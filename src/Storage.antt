-- ===== src/Storage.antt =====
-- The storage of torrents: src/downloader/storage.
pub mod Paths
pub mod OpenFileCache
pub mod ChunkLocator
pub mod ChunkRangeIo
pub mod StorageJobQueue
