-- ===== src/Storage/ChunkLocator/Found.antt =====
-- A registered chunk is found, and stays found.

use wgrd_mod_manager.Common.{
  ℕ, zero, suc, ◌/◌, ◌%◌, ◌≡◌, refl, sym, ap, ◌∙◌, ◌≢◌, inl, inr, Bool, true, List, [], ◌∷◌, arith,
  if◌then◌else◌, Bool-cases, get_or, any, All, any-append, Bytes, same, same_iff, same_refl,
}
use wgrd_mod_manager.Storage.Paths.{FilePath, same_path_iff}
use wgrd_mod_manager.Payload.Paths.{to_slashes}
use wgrd_mod_manager.Domain.ChunkFileNaming.{file_name_for}
use wgrd_mod_manager.Domain.Manifest.{ManifestChunk}
use wgrd_mod_manager.Domain.FixedBytes.{hex_digits, to_hex}
use wgrd_mod_manager.Storage.ChunkLocator.Tidy.{next_placements}
use wgrd_mod_manager.Storage.ChunkLocator.{
  ChunkLocation, Locations, ChunkLocator, same_location, placements_at, insert_location, lookup,
  register_file, register_chunks,
}
use wgrd_mod_manager.Common.Table.Laws.{find-insert}
use wgrd_mod_manager.Common.Table.{insert}

pub placements_at-insert :
    (n name : Bytes) (placements : List ChunkLocation) (table : Locations)
    → placements_at n (insert name placements table)
      ≡ (if same n name then placements else placements_at n table)
unfolding placements_at
placements_at-insert n name placements table = ground (arith, find-insert name n placements table)

-- the table has the placement under the name
abbrev pub has : Locations → Bytes → ChunkLocation → Bool
has table name p = any (λ x. same_location x p) (placements_at name table)

same_location_refl : (p : ChunkLocation) → same_location p p ≡ true
unfolding same_location
same_location_refl p = ground (arith, same_path_iff p.file p.file)

placements_at-insert_location :
    (table : Locations) (name n : Bytes) (p : ChunkLocation)
    → placements_at n (insert_location table name p)
      ≡ (if same n name then next_placements p (placements_at n table) else placements_at n table)
unfolding insert_location
placements_at-insert_location table name n p =
    placements_at-insert n name (next_placements p (placements_at name table)) table
    ∙ (elim (Bool-cases (same n name)) [
      | inl e ↦
          rw e (ap (λ k. next_placements p (placements_at k table)) (sym ((same_iff n name).0 e)))
      | inr e ↦ rw e refl
    ])

has-next :
    (p : ChunkLocation) (placements : List ChunkLocation)
    → any (λ x. same_location x p) (next_placements p placements) ≡ true
has-next p placements =
    ground (arith, any-append (λ x. same_location x p) placements (p ∷ []), same_location_refl p)

has-next_other :
    (p q : ChunkLocation) (placements : List ChunkLocation)
    → any (λ x. same_location x q) placements ≡ true
    → any (λ x. same_location x q) (next_placements p placements) ≡ true
has-next_other p q placements h =
    ground (arith, any-append (λ x. same_location x q) placements (p ∷ []))

pub has-insert_location :
    (table : Locations) (name : Bytes) (p : ChunkLocation)
    → has (insert_location table name p) name p ≡ true
has-insert_location table name p = ground (
  arith,
  placements_at-insert_location table name name p,
  same_refl name,
  has-next p (placements_at name table),
)

has-insert_location_other :
    (table : Locations) (name n : Bytes) (p q : ChunkLocation)
    → has table n q ≡ true
    → has (insert_location table name p) n q ≡ true
has-insert_location_other table name n p q h = ground (
  arith,
  placements_at-insert_location table name n p,
  has-next_other p q (placements_at n table) h,
)

-- `to_slashes` leaves the name of a chunk's file alone
get_or-digit : (digits : Bytes) (k : ℕ) → All (λ c. c ≢ 92) digits → get_or digits k 0 ≢ 92
get_or-digit [] k h = λ e. absurd (omega (arith, e))
get_or-digit (c ∷ digits) zero h = h.0
get_or-digit (c ∷ digits) (suc k) h = get_or-digit digits k h.1

hex_digits-plain : (k : ℕ) → get_or hex_digits k 0 ≢ 92
hex_digits-plain k = get_or-digit hex_digits k (ground arith)

to_slashes-file_name_for :
    (digest : Bytes) → to_slashes (file_name_for digest) ≡ file_name_for digest
unfolding to_slashes file_name_for to_hex
to_slashes-file_name_for [] = refl
to_slashes-file_name_for (b ∷ digest) =
    ground
      (arith, hex_digits-plain (b / 16), hex_digits-plain (b % 16), to_slashes-file_name_for digest)

-- a chunk of a folder's file, at its place
abbrev pub placed_at : FilePath → ManifestChunk → ChunkLocation
placed_at file c = record { file = file; offset = c.offset; length = c.length }

abbrev pub is_found : ChunkLocator → FilePath → ManifestChunk → Bool
is_found l file c =
    any (λ x. same_location x (placed_at file c)) (lookup l.locations (file_name_for c.digest))

pub has-found :
    (l : ChunkLocator) (file : FilePath) (c : ManifestChunk)
    → has l.locations (file_name_for c.digest) (placed_at file c) ≡ true
    → is_found l file c ≡ true
unfolding lookup placements_at
has-found l file c h = ground (arith, to_slashes-file_name_for c.digest, h)

register_file_keeps :
    (l : ChunkLocator) (name n : Bytes) (file : FilePath) (offset size : ℕ) (q : ChunkLocation)
    → has l.locations n q ≡ true
    → has (register_file l name file offset size).1.locations n q ≡ true
unfolding register_file
register_file_keeps l name n file offset size q h = ground (
  arith,
  has-insert_location_other l.locations name n
      (record { file = file; offset = offset; length = size }) q h,
)

pub register_chunks_keep :
    (l : ChunkLocator) (file : FilePath) (chunks : List ManifestChunk) (n : Bytes)
    (q : ChunkLocation)
    → has l.locations n q ≡ true
    → has (register_chunks l file chunks).locations n q ≡ true
unfolding register_chunks
register_chunks_keep l file [] n q h = h
register_chunks_keep l file (c ∷ chunks) n q h =
    register_chunks_keep (register_file l (file_name_for c.digest) file c.offset c.length).1 file
      chunks n q (register_file_keeps l (file_name_for c.digest) n file c.offset c.length q h)
