-- ===== src/Install/Plan.antt =====
-- src/domain/types/distribution/InstallPlan.
pub mod Sums
use wgrd_mod_manager.Common.{
  ℕ, ◌+◌, ◌%◌, ◌^◌, Bool, true, false, ◌&&◌, List, [], ◌∷◌, ◌==◌, if◌then◌else◌, length, Bytes,
}

pub data ChunkSourceKind : Type 0 where
  held remote : ChunkSourceKind

pub record ChunkPlacement : Type 0 where
  pub digest : Bytes
  pub target_offset : ℕ
  pub length : ℕ
  pub source : ChunkSourceKind
  pub held_file : Bytes
  pub held_offset : ℕ

pub record FilePlan : Type 0 where
  pub path : Bytes
  pub size : ℕ
  pub placements : List ChunkPlacement

pub record InstallPlan : Type 0 where
  pub files : List FilePlan
  pub removals : List Bytes

abbrev pub is_remote : ChunkSourceKind → Bool
is_remote held = false
is_remote remote = true

abbrev pub is_held : ChunkSourceKind → Bool
is_held held = true
is_held remote = false

-- the inner loop of the three sums, with the sum so far
unfoldable pub add_placements : (ChunkPlacement → ℕ) → ℕ → List ChunkPlacement → ℕ
add_placements weight total [] = total
add_placements weight total (p ∷ placements) =
    add_placements weight ((total + weight p) % 2 ^ 64) placements

-- their outer loop
unfoldable pub add_files : (ChunkPlacement → ℕ) → ℕ → List FilePlan → ℕ
unfolding add_placements
add_files weight total [] = total
add_files weight total (f ∷ files) =
    add_files weight (add_placements weight total f.placements) files

abbrev pub remote_weight : ChunkPlacement → ℕ
remote_weight p = if is_remote p.source then p.length else 0

abbrev pub held_weight : ChunkPlacement → ℕ
held_weight p = if is_held p.source then p.length else 0

unfoldable pub remote_bytes : InstallPlan → ℕ
remote_bytes plan = add_files remote_weight 0 plan.files

unfoldable pub held_bytes : InstallPlan → ℕ
held_bytes plan = add_files held_weight 0 plan.files

unfoldable pub remote_chunk_count : InstallPlan → ℕ
remote_chunk_count plan = add_files (λ p. if is_remote p.source then 1 else 0) 0 plan.files

unfoldable pub is_empty : InstallPlan → Bool
is_empty plan = length plan.files == 0 && length plan.removals == 0
