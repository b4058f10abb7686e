-- ===== src/Install/StagedFiles.antt =====
-- src/manager/install/StagedFileSeeder: a staged file begins as a copy of the installed one. The
-- file system and the hash are arguments.
use wgrd_mod_manager.Common.{
  ℕ, ◌+◌, ◌%◌, ◌^◌, Bool, true, false, not, ◌||◌, Option, none, some, List, [], ◌∷◌, ltb, ◌==◌,
  if◌then◌else◌, length, Bytes, same,
}
use wgrd_mod_manager.Chunk.Lister.{subspan}
use wgrd_mod_manager.Install.Plan.{ChunkPlacement, FilePlan, is_held}

-- What the file system answers, and its state after it.
pub record IStagingFiles (W : Type 0) : Type 0 where
  -- `MappedFile::Open`
  pub map_file : W → Bytes → Option Bytes
  -- of the parent of a path: whether it did not fail
  pub create_directories : W → Bytes → Bool × W
  pub is_regular_file : W → Bytes → Bool
  pub copy_file : W → Bytes → Bytes → Bool × W
  -- an `ofstream` that truncates
  pub create : W → Bytes → Bool × W
  pub remove : W → Bytes → W
  pub resize_file : W → Bytes → ℕ → Bool × W

module _ (hash : Bytes → Bytes) where
  -- the loop of `StagedMatchesHeldRanges_`
  unfoldable pub ranges_match : Bytes → Bytes → List ChunkPlacement → Bool
  ranges_match original content [] = true
  ranges_match original content (p ∷ placements) =
      let rest = ranges_match original content placements in
      if not (is_held p.source)
      then rest
      else if not (same p.held_file original) || not (p.held_offset == p.target_offset)
      then rest
      else if ltb (length content) ((p.target_offset + p.length) % 2 ^ 64)
      then false
      else if same (hash (subspan content p.target_offset p.length)) p.digest
      then rest
      else false

  module _ {W : Type 0} (i : IStagingFiles W) where
    unfoldable pub staged_matches_held_ranges : W → Bytes → Bytes → FilePlan → Bool
    staged_matches_held_ranges w original staged f = elim (i.map_file w staged) [
      | none ↦ false
      | some content ↦ ranges_match original content f.placements
    ]

    unfoldable pub copy_from_original : W → Bytes → Bytes → Bool × W
    copy_from_original w original staged =
        let (copied, w') = i.copy_file w original staged in
        if i.is_regular_file w original
        then (if copied then (true, w') else i.create w' staged)
        else i.create w staged

    -- the last step of `Seed`
    unfoldable pub resize : Bool × W → Bytes → FilePlan → Bool × W
    resize (copied, w) staged f = if copied then i.resize_file w staged f.size else (false, w)

    -- `Seed`: whether it did not fail, and whether what was staged before is resumed
    unfoldable pub seed : W → Bytes → Bytes → FilePlan → Bool → (Bool × W) × Bool
    seed w original staged f resumed =
        let (made, w') = i.create_directories w staged in
        if not made
        then ((false, w'), resumed)
        else if not (i.is_regular_file w' staged)
        then (resize (copy_from_original w' original staged) staged f, resumed)
        else if staged_matches_held_ranges w' original staged f
        then (resize (true, w') staged f, true)
        else (resize (copy_from_original (i.remove w' staged) original staged) staged f, resumed)
