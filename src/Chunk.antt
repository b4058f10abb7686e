-- ===== src/Chunk.antt =====
-- Content-defined chunks: src/domain/types/content/ChunkSizes and
-- src/downloader/chunk/FastCdcChunker, and the description of a file by them.
pub mod Sizes
pub mod Chunker
pub mod Lister
