-- ===== src/Chunk/Lister/Valid.antt =====
-- What a file is described by is valid in a manifest.
use wgrd_mod_manager.Chunk.Chunker.Cover.{Tiles, Tiles-le, IsSized, split-Tiles}
use wgrd_mod_manager.Common.{
  ℕ, ◌+◌, ◌^◌, ◌≤◌, ◌<◌, ◌≡◌, refl, ap, true, some, List, [], ◌∷◌, map, arith, length, All, Bytes,
}
use wgrd_mod_manager.Domain.Manifest.{ManifestFile}
use wgrd_mod_manager.Chunk.Lister.{chunk_of, describe, layout_from, validate_chunk_layout}
use wgrd_mod_manager.Chunk.Chunker.{ChunkSpan, split}
use wgrd_mod_manager.Chunk.Sizes.{ChunkSizes, IsChunkSizes}

module _ (hash : Bytes → Bytes) (sizes : ChunkSizes) where
  layout_from-Tiles :
      (content : Bytes) (offset end : ℕ) (spans : List ChunkSpan)
      → sizes.maximum < 2 ^ 32
      → end < 2 ^ 64
      → offset ≤ end
      → Tiles offset end spans
      → All (IsSized sizes end) spans
      → layout_from offset (map (chunk_of hash content) spans) ≡ some end
  unfolding layout_from chunk_of
  layout_from-Tiles content offset end [] m e o t a = ap some t
  layout_from-Tiles content offset end (s ∷ spans) m e o t a =
      let inside = Tiles-le (offset + s.length) end spans t.1 in
      ground (
        arith,
        a.0.0,
        a.0.1,
        t.0,
        inside,
        layout_from-Tiles content (offset + s.length) end spans m e inside t.1 a.1,
      )

  -- A file of fewer than 2 ^ 64 octets that can be opened is described, by chunks of sizes below
  -- 2 ^ 32, in a way that the reader of a manifest lets through: no chunk is empty, each begins
  -- where the one before it ends, and together they are the file's size.
  pub validate-describe :
      (gear : ℕ → ℕ) (content path : Bytes)
      → IsChunkSizes sizes
      → sizes.maximum < 2 ^ 32
      → length content < 2 ^ 64
      → (f : ManifestFile) × (describe hash gear sizes (some content) path ≡ some f)
        × (f.size ≡ length content)
        × (validate_chunk_layout f ≡ true)
  unfolding describe validate_chunk_layout
  validate-describe gear content path v m e =
      let (tiles, sized) = split-Tiles gear sizes content v in
      let q =
        layout_from-Tiles content 0 (length content) (split gear sizes content) m e (omega arith)
          tiles sized in
      (_, refl, refl, rw (q, validate_chunk_layout) (ground arith))
