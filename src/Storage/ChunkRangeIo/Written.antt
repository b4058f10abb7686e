-- ===== src/Storage/ChunkRangeIo/Written.antt =====
-- Where `Write` writes.
use wgrd_mod_manager.Common.{
  ℕ, ◌+◌, ◌%◌, ◌^◌, ◌≤◌, ◌≡◌, refl, sym, subst, inl, inr, Bool, false, List, [], ◌∷◌, arith,
  Bool-cases, length, take, drop, All, Any, length-take, All-imply, Bytes,
}
use wgrd_mod_manager.Storage.Paths.{FilePath}
use wgrd_mod_manager.Storage.ChunkLocator.{ChunkLocation, ChunkLocator, find_destinations}
use wgrd_mod_manager.Storage.ChunkRangeIo.{
  StorageRole, seed_read, fetch_write, FileSlice, IFileStorage, IRanges, is_beyond, offset_in,
  write_places, write_slice, write_slices, write_block,
}

-- A write that a fetch may do: into a destination of a chunk, or into a file that the fetch itself
-- keeps at the path that it is saved at.
pub data IsPermitted (join : FilePath → Bytes → FilePath) (l : ChunkLocator) (save_path : FilePath)
    : FilePath → ℕ → Bytes → Type 0 where
  to_destination :
      (relative : Bytes) (d : ChunkLocation) (at : ℕ) (bytes : Bytes)
      → Any (λ x. x ≡ d) (find_destinations l relative)
      → at + length bytes ≤ d.length
      → IsPermitted join l save_path d.file ((d.offset + at) % 2 ^ 64) bytes
  to_staging :
      (relative : Bytes) (at : ℕ) (bytes : Bytes)
      → find_destinations l relative ≡ []
      → IsPermitted join l save_path (join save_path relative) at bytes

module _ (join : FilePath → Bytes → FilePath) (l : ChunkLocator) (save_path : FilePath) {S : Type 0}
    (r : IRanges S) (P : S → Type 0)
    (keeps : (s : S) (file : FilePath) (at : ℕ) (bytes : Bytes)
      → IsPermitted join l save_path file at bytes
      → P s
      → P (r.write_range s file at bytes).1) where
  write_places_keep :
      (s : S) (relative : Bytes) (slice : FileSlice) (bytes : Bytes) (places : List ChunkLocation)
      → length bytes ≤ slice.size
      → All (λ d. Any (λ x. x ≡ d) (find_destinations l relative)) places
      → P s
      → P (write_places join l save_path r s slice bytes places).1
  unfolding write_places
  write_places_keep s relative slice bytes [] b a p = p
  write_places_keep s relative slice bytes (d ∷ places) b a p =
      let w = r.write_range s d.file (offset_in d slice) bytes in
      elim (Bool-cases (is_beyond slice d)) [
        | inl h ↦ rw (h, write_places) p
        | inr h ↦
            let p' : P w.1 =
              keeps s d.file (offset_in d slice) bytes
                (to_destination relative d slice.offset bytes a.0 (ground (arith, h, b))) p in
            rw (h, write_places)
              (elim (Bool-cases w.0) [
                | inl g ↦ rw g (write_places_keep w.1 relative slice bytes places b a.1 p')
                | inr g ↦ rw g p'
              ])
      ]

  All-Any : (xs : List ChunkLocation) → All (λ d. Any (λ x. x ≡ d) xs) xs
  All-Any [] = tt
  All-Any (x ∷ xs) = (
    inl refl,
    All-imply (λ d. Any (λ y. y ≡ d) xs) (λ d. Any (λ y. y ≡ d) (x ∷ xs)) (λ d h. inr h) xs
        (All-Any xs),
  )

  write_slice_keeps :
      (s : S) (relative : Bytes) (slice : FileSlice) (bytes : Bytes)
      → length bytes ≤ slice.size
      → P s
      → P (write_slice join l save_path r s relative slice bytes).1
  unfolding write_slice
  write_slice_keeps s relative slice bytes b p = go (find_destinations l relative) refl
    where
      go :
          (found : List ChunkLocation)
          → find_destinations l relative ≡ found
          → P
              (elim found as (λ x. Bool × S) [
                | [] ↦ r.write_range s (join save_path relative) slice.offset bytes
                | d ∷ rest ↦ write_places join l save_path r s slice bytes (d ∷ rest)
              ]).1
      go [] e =
          keeps s (join save_path relative) slice.offset bytes
            (to_staging relative slice.offset bytes e) p
      go (d ∷ rest) e =
          write_places_keep s relative slice bytes (d ∷ rest) b
            (subst (λ xs. All (λ d. Any (λ x. x ≡ d) xs) (d ∷ rest)) (sym e) (All-Any (d ∷ rest))) p

  module _ (files : IFileStorage) where
    write_slices_keep :
        (s : S) (size consumed : ℕ) (source : Bytes) (slices : List FileSlice)
        → P s
        → P (write_slices join l save_path r files s size consumed source slices).1
    unfolding write_slices
    write_slices_keep s size consumed source [] p = p
    write_slices_keep s size consumed source (slice ∷ slices) p =
        let bytes = take slice.size (drop consumed source) in
        let w = write_slice join l save_path r s (files.file_path slice.file_index) slice bytes in
        let p' : P w.1 =
          write_slice_keeps s (files.file_path slice.file_index) slice bytes
            (omega (arith, length-take slice.size (drop consumed source))) p in
        elim (Bool-cases (files.pad_file_at slice.file_index)) [
          | inl h ↦
              rw (h, write_slices)
                (write_slices_keep s size (consumed + slice.size) source slices p)
          | inr h ↦
              rw (h, write_slices)
                (elim (Bool-cases w.0) [
                  | inl g ↦
                      rw g (write_slices_keep w.1 size (consumed + slice.size) source slices p')
                  | inr g ↦ rw g p'
                ])
        ]

    -- What `Write` comes to: it keeps what every permitted write keeps, or refuses and leaves all as it
    -- was.
    abbrev pub Writes : StorageRole → S → Bool × S → Type 0
    Writes fetch_write s w = P w.1
    Writes seed_read s w = w ≡ (false, s)

    -- Whatever the torrent's layout and the block, `Write` keeps what every permitted write keeps: it
    -- writes nowhere but inside the destinations of the chunks, and for files that have none, at
    -- their own path in the folder of the fetch. Where the role is to read for seeding, `Write`
    -- answers with false, and nothing has been written.
    pub write_block_keeps :
        (role : StorageRole) (s : S) (piece offset : ℕ) (source : Bytes)
        → P s
        → Writes role s (write_block join l save_path r files role s piece offset source)
    unfolding write_block
    write_block_keeps seed_read s piece offset source p = refl
    write_block_keeps fetch_write s piece offset source p =
        write_slices_keep s (length source) 0 source (files.map_block piece offset (length source))
          p
