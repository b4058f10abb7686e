-- ===== src/Chunk/Lister.antt =====
-- src/manager/manifest/FileChunkLister, and the test of src/manager/manifest/ManifestCodec that each
-- file of a decoded manifest has to pass. The hash and the file's octets are arguments.
pub mod Valid
use wgrd_mod_manager.Common.{
  ℕ, ◌+◌, ◌%◌, ◌^◌, Bool, false, Option, none, some, List, [], ◌∷◌, map, ◌==◌, if◌then◌else◌,
  length, take, drop, Bytes,
}
use wgrd_mod_manager.Domain.Manifest.{ManifestChunk, ManifestFile}
use wgrd_mod_manager.Chunk.Sizes.{ChunkSizes}
use wgrd_mod_manager.Chunk.Chunker.{ChunkSpan, split}

-- `std::span::subspan`
abbrev pub subspan : Bytes → ℕ → ℕ → Bytes
subspan content offset size = take size (drop offset content)

module _ (hash : Bytes → Bytes) where
  unfoldable pub chunk_of : Bytes → ChunkSpan → ManifestChunk
  chunk_of content span = record {
    digest = hash (subspan content span.offset span.length);
    offset = span.offset % 2 ^ 64;
    length = span.length % 2 ^ 32;
  }

  -- `Describe` of a file, `none` where it cannot be mapped
  unfoldable pub describe : (ℕ → ℕ) → ChunkSizes → Option Bytes → Bytes → Option ManifestFile
  describe gear sizes none path = none
  describe gear sizes (some content) path = some (record {
    path = path;
    size = length content;
    chunks = map (chunk_of content) (split gear sizes content);
  })

-- the loop of `ValidateChunkLayout_`, with its cursor; `none` for an invalid layout
unfoldable pub layout_from : ℕ → List ManifestChunk → Option ℕ
layout_from cursor [] = some cursor
layout_from cursor (c ∷ chunks) =
    let rest = layout_from ((cursor + c.length) % 2 ^ 64) chunks in
    if c.length == 0 then none else if c.offset == cursor then rest else none

unfoldable pub validate_chunk_layout : ManifestFile → Bool
validate_chunk_layout f = elim (layout_from 0 f.chunks) [
  | none ↦ false
  | some cursor ↦ cursor == f.size
]
