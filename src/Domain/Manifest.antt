-- ===== src/Domain/Manifest.antt =====
-- src/domain/types/content/ModManifest, ManifestFile.h, ManifestChunk.h and HeldChunkLocation.h.
-- The description and the preview of a manifest, which only its `operator==` reads, are left out.
use wgrd_mod_manager.Common.{
  ℕ, ◌+◌, ◌%◌, ◌^◌, ◌≡◌, refl, ap₂, Bool, true, false, ◌&&◌, List, [], ◌∷◌, ◌++◌, arith, ◌==◌,
  length, Bytes, same, same_iff, same_refl,
}
use wgrd_mod_manager.Domain.FixedBytes.{to_hex}

pub record ManifestChunk : Type 0 where
  pub digest : Bytes
  pub offset : ℕ
  pub length : ℕ

pub record ManifestFile : Type 0 where
  pub path : Bytes
  pub size : ℕ
  pub chunks : List ManifestChunk

pub record ModManifest : Type 0 where
  pub publisher : Bytes
  pub mod_name : Bytes
  pub version : ℕ
  pub files : List ManifestFile

pub record HeldChunkLocation : Type 0 where
  pub file : Bytes
  pub offset : ℕ
  pub length : ℕ

unfoldable pub same_chunk : ManifestChunk → ManifestChunk → Bool
same_chunk a b = same a.digest b.digest && a.offset == b.offset && a.length == b.length

unfoldable pub same_chunks : List ManifestChunk → List ManifestChunk → Bool
same_chunks [] [] = true
same_chunks [] (b ∷ bs) = false
same_chunks (a ∷ as_) [] = false
same_chunks (a ∷ as_) (b ∷ bs) = same_chunk a b && same_chunks as_ bs

-- `ManifestFile::operator==`
unfoldable pub same_file : ManifestFile → ManifestFile → Bool
same_file a b = same a.path b.path && a.size == b.size && same_chunks a.chunks b.chunks

-- the loop of `TotalBytes`, with the sum so far
unfoldable pub total_from : ℕ → List ManifestFile → ℕ
total_from total [] = total
total_from total (f ∷ files) = total_from ((total + f.size) % 2 ^ 64) files

unfoldable pub total_bytes : ModManifest → ℕ
total_bytes m = total_from 0 m.files

-- the loop of `ChunkCount`
unfoldable pub count_from : ℕ → List ManifestFile → ℕ
count_from total [] = total
count_from total (f ∷ files) = count_from ((total + length f.chunks) % 2 ^ 64) files

unfoldable pub chunk_count : ModManifest → ℕ
chunk_count m = count_from 0 m.files

unfoldable pub manifest_identifier : ModManifest → Bytes
manifest_identifier m = to_hex m.publisher ++ (b'/' ∷ m.mod_name)

unfoldable pub torrent_name : ModManifest → Bytes
torrent_name m = to_hex m.publisher ++ (b'_' ∷ m.mod_name)

same_chunk_refl : (a : ManifestChunk) → same_chunk a a ≡ true
unfolding same_chunk
same_chunk_refl a = ground (arith, same_refl a.digest)

same_chunks_refl : (as_ : List ManifestChunk) → same_chunks as_ as_ ≡ true
unfolding same_chunks
same_chunks_refl [] = refl
same_chunks_refl (a ∷ as_) = ground (arith, same_chunk_refl a, same_chunks_refl as_)

pub same_file_refl : (f : ManifestFile) → same_file f f ≡ true
unfolding same_file
same_file_refl f = ground (arith, same_refl f.path, same_chunks_refl f.chunks)

same_file-path : (a b : ManifestFile) → same_file a b ≡ true → same a.path b.path ≡ true
unfolding same_file
same_file-path a b h = ground arith

same_chunk_eq : (a b : ManifestChunk) → same_chunk a b ≡ true → a ≡ b
unfolding same_chunk
same_chunk_eq a b h =
    let digest : a.digest ≡ b.digest = (same_iff a.digest b.digest).0 (ground (arith, h)) in
    let offset : a.offset ≡ b.offset = ground (arith, h) in
    let size : a.length ≡ b.length = ground (arith, h) in
    λ i. record { digest = digest i; offset = offset i; length = size i }

same_chunks_eq : (as_ bs : List ManifestChunk) → same_chunks as_ bs ≡ true → as_ ≡ bs
unfolding same_chunks
same_chunks_eq [] [] h = refl
same_chunks_eq [] (b ∷ bs) h = absurd (ground (arith, h))
same_chunks_eq (a ∷ as_) [] h = absurd (ground (arith, h))
same_chunks_eq (a ∷ as_) (b ∷ bs) h =
    ap₂ (◌∷◌) (same_chunk_eq a b (ground (arith, h))) (same_chunks_eq as_ bs (ground (arith, h)))

-- `operator==` of two files holds of equal files alone.
pub same_file_eq : (a b : ManifestFile) → same_file a b ≡ true → a ≡ b
unfolding same_file
same_file_eq a b h =
    let path : a.path ≡ b.path = (same_iff a.path b.path).0 (ground (arith, h)) in
    let size : a.size ≡ b.size = ground (arith, h) in
    let chunks : a.chunks ≡ b.chunks = same_chunks_eq a.chunks b.chunks (ground (arith, h)) in
    λ i. record { path = path i; size = size i; chunks = chunks i }
