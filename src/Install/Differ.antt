-- ===== src/Install/Differ.antt =====
-- src/manager/install/ManifestDiffer. How `/` joins two paths and the catalogue of held chunks are
-- arguments.
pub mod Sound
pub mod Coverage
pub mod Unchanged
use wgrd_mod_manager.Common.{
  Bool, false, Option, none, some, List, [], ◌∷◌, map, ◌==◌, if◌then◌else◌, length, any, find_if,
  Bytes, same,
}
use wgrd_mod_manager.Common.Table.{Table, find, insert}
use wgrd_mod_manager.Domain.FixedBytes.{to_hex}
use wgrd_mod_manager.Domain.Manifest.{
  ManifestChunk, ManifestFile, ModManifest, HeldChunkLocation, same_file,
}
use wgrd_mod_manager.Install.Plan.{held, remote, ChunkPlacement, FilePlan, InstallPlan}

abbrev pub HeldChunkIndex : Type 0
HeldChunkIndex = Table HeldChunkLocation

-- `std::map::try_emplace`
unfoldable pub try_emplace : Bytes → HeldChunkLocation → HeldChunkIndex → HeldChunkIndex
try_emplace key location index = elim (find key index) [
  | none ↦ insert key location index
  | some _ ↦ index
]

unfoldable pub file_unchanged : ModManifest → ManifestFile → Bool
file_unchanged held_manifest file =
    elim (find_if (λ candidate. same candidate.path file.path) held_manifest.files) [
      | none ↦ false
      | some match_ ↦ same_file match_ file
    ]

-- `std::any_of` over the files, by the path
unfoldable pub has_path : List ManifestFile → Bytes → Bool
has_path files path = any (λ candidate. same candidate.path path) files

module _ (join : Bytes → Bytes → Bytes) where
  -- the inner loop of `IndexHeldChunks_`
  unfoldable pub index_chunks : Bytes → List ManifestChunk → HeldChunkIndex → HeldChunkIndex
  unfolding try_emplace
  index_chunks file [] index = index
  index_chunks file (c ∷ chunks) index = index_chunks file chunks (
      try_emplace (to_hex c.digest) (record { file = file; offset = c.offset; length = c.length })
        index)

  unfoldable pub index_files : Bytes → List ManifestFile → HeldChunkIndex → HeldChunkIndex
  unfolding index_chunks
  index_files root [] index = index
  index_files root (f ∷ files) index =
      index_files root files (index_chunks (join root f.path) f.chunks index)

  unfoldable pub index_held_chunks : ModManifest → Bytes → HeldChunkIndex
  unfolding index_files
  index_held_chunks held_manifest held_root = index_files held_root held_manifest.files []

module _ (locate : Bytes → Option HeldChunkLocation) where
  abbrev pub held_at : ManifestChunk → HeldChunkLocation → ChunkPlacement
  held_at chunk location = record {
    digest = chunk.digest;
    target_offset = chunk.offset;
    length = chunk.length;
    source = held;
    held_file = location.file;
    held_offset = location.offset;
  }

  abbrev pub from_remote : ManifestChunk → ChunkPlacement
  from_remote chunk = record {
    digest = chunk.digest;
    target_offset = chunk.offset;
    length = chunk.length;
    source = remote;
    held_file = [];
    held_offset = 0;
  }

  unfoldable pub place : HeldChunkIndex → ManifestChunk → ChunkPlacement
  place held_chunks chunk = elim (find (to_hex chunk.digest) held_chunks) [
    | some match_ ↦ held_at chunk match_
    | none ↦ elim (locate chunk.digest) [
      | none ↦ from_remote chunk
      | some catalogued ↦
          if catalogued.length == chunk.length then held_at chunk catalogued else from_remote chunk
    ]
  ]

  -- the loop of `Diff` over the target's files
  unfoldable pub plan_files : ModManifest → HeldChunkIndex → List ManifestFile → List FilePlan
  unfolding place
  plan_files held_manifest held_chunks [] = []
  plan_files held_manifest held_chunks (f ∷ files) =
      let rest = plan_files held_manifest held_chunks files in
      if file_unchanged held_manifest f
      then rest
      else record { path = f.path; size = f.size; placements = map (place held_chunks) f.chunks }
        ∷ rest

-- the loop of `Diff` over the held files
unfoldable pub removals_of : ModManifest → List ManifestFile → List Bytes
removals_of target [] = []
removals_of target (f ∷ files) =
    let rest = removals_of target files in
    if has_path target.files f.path then rest else f.path ∷ rest

unfoldable pub diff :
    (Bytes → Bytes → Bytes)
    → ModManifest
    → Bytes
    → ModManifest
    → (Bytes → Option HeldChunkLocation)
    → InstallPlan
unfolding index_held_chunks plan_files removals_of
diff join held_manifest held_root target locate = record {
  files =
      plan_files locate held_manifest (index_held_chunks join held_manifest held_root) target.files;
  removals = removals_of target held_manifest.files;
}
