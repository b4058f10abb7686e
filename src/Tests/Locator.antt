-- ===== src/Tests/Locator.antt =====
-- The locator of chunks, and reading and writing by it.

use wgrd_mod_manager.Storage.ChunkLocator.Invariant.{
  registers, forgets, clears_destinations, IsLocator, step, run, run-IsLocator,
}
use wgrd_mod_manager.Storage.ChunkLocator.{
  ChunkLocator, no_chunks, placements_at, lookup, forget, register_files, register,
  find_destinations,
}
use wgrd_mod_manager.Common.{
  ℕ, ◌≡◌, refl, sym, ap, ◌∙◌, true, false, some, List, [], ◌∷◌, ◌++◌, ◌==◌, some-injective, length,
  replicate, All, length-replicate, Bytes, codes, same,
}
use wgrd_mod_manager.Common.Table.{find}
use wgrd_mod_manager.Domain.Manifest.{ManifestChunk, ModManifest}
use wgrd_mod_manager.Storage.Paths.{FilePath}
use wgrd_mod_manager.Storage.ChunkLocator.Tidy.{IsTidy}
use wgrd_mod_manager.Storage.ChunkLocator.Forgotten.{away, IsAway}
use wgrd_mod_manager.Storage.ChunkLocator.Gone.{manifest_name, forget-IsAway}
use wgrd_mod_manager.Storage.ChunkRangeIo.{
  fetch_write, success, IFileStorage, IRanges, ReadEnd, source_of, read_slices, read_block,
  write_block,
}
use wgrd_mod_manager.Storage.ChunkRangeIo.Written.{IsPermitted, write_block_keeps}
use wgrd_mod_manager.Storage.ChunkRangeIo.Got.{IsExact, read_block-success}
use wgrd_mod_manager.Domain.ChunkFileNaming.{file_name_for}

abbrev join : FilePath → Bytes → FilePath
join folder path = folder ++ path ∷ []

abbrev chunk : ManifestChunk
chunk = record { digest = 1 ∷ 2 ∷ []; offset = 4; length = 10 }

abbrev mod_manifest : ModManifest
mod_manifest = record {
  publisher = 7 ∷ [];
  mod_name = codes "abc";
  version = 1;
  files = record { path = codes "map"; size = 14; chunks = chunk ∷ [] } ∷ [];
}

abbrev mod_folder : FilePath
mod_folder = codes "mods" ∷ []

abbrev locating : ChunkLocator
locating = register join no_chunks mod_manifest mod_folder

no_chunks-IsLocator : IsLocator no_chunks
no_chunks-IsLocator = record {
  located = record { ascends = tt; placed = tt };
  destined = record { ascends = tt; placed = tt };
}

run-IsLocator_example : IsLocator (
    run join no_chunks (
      registers mod_manifest mod_folder
      ∷ clears_destinations
      ∷ forgets mod_manifest mod_folder
      ∷ []))
run-IsLocator_example =
    run-IsLocator join no_chunks
      (registers mod_manifest mod_folder
        ∷ clears_destinations
        ∷ forgets mod_manifest mod_folder
        ∷ [])
      no_chunks-IsLocator

locating-IsTidy : IsTidy locating.locations
unfolding register run register_files step
locating-IsTidy =
    (run-IsLocator join no_chunks (registers mod_manifest mod_folder ∷ [])
      no_chunks-IsLocator).located

forget-IsAway_example :
    All
      (λ f.
        All
          (λ c.
            IsAway
              (forget locating mod_manifest mod_folder).locations
              mod_folder
              (file_name_for c.digest))
          f.chunks)
      mod_manifest.files
    × ((n : Bytes)
        → same n (manifest_name mod_manifest) ≡ false
        → away mod_folder (placements_at n (forget locating mod_manifest mod_folder).locations)
          ≡ away mod_folder (placements_at n locating.locations))
forget-IsAway_example = forget-IsAway locating mod_manifest mod_folder locating-IsTidy

-- a state that keeps a list of what was written, and reads zeros
abbrev Trace : Type 0
Trace = List (FilePath × ℕ × Bytes)

abbrev traced : IRanges Trace
traced = record {
  read_range = λ s file offset size. (some (replicate size 0), s);
  write_range = λ s file offset bytes. (true, (file, offset, bytes) ∷ s);
}

abbrev AllPermitted : ChunkLocator → FilePath → Trace → Type 0
AllPermitted l save_path s = All (λ x. IsPermitted join l save_path x.0 x.1 x.2) s

traced-keeps :
    (l : ChunkLocator) (save_path : FilePath) (s : Trace) (file : FilePath) (at : ℕ) (bytes : Bytes)
    → IsPermitted join l save_path file at bytes
    → AllPermitted l save_path s
    → AllPermitted l save_path (traced.write_range s file at bytes).1
traced-keeps l save_path s file at bytes h a = (h, a)

-- a block of two files, the second of them padding
abbrev layout : IFileStorage
layout = record {
  map_block = λ piece offset size.
      record { file_index = 0; offset = 0; size = 2 }
      ∷ record { file_index = 1; offset = 0; size = 1 }
      ∷ [];
  pad_file_at = λ index. index == 1;
  file_path = λ index. codes "a.chunk";
}

write_block_keeps_example :
    AllPermitted no_chunks mod_folder
      (write_block join no_chunks mod_folder traced layout fetch_write [] 0 0 (1 ∷ 2 ∷ 3 ∷ [])).1
write_block_keeps_example =
    write_block_keeps join no_chunks mod_folder traced (AllPermitted no_chunks mod_folder)
      (traced-keeps no_chunks mod_folder) layout fetch_write [] 0 0 (1 ∷ 2 ∷ 3 ∷ []) tt

traced-IsExact : IsExact traced
traced-IsExact s file offset size bytes e =
    ap length (sym (some-injective e)) ∙ length-replicate size 0

abbrev block : ReadEnd Trace
block = read_block join no_chunks mod_folder traced layout fetch_write [] 0 0 3 0

block-success : block.outcome ≡ success
unfolding read_block read_slices source_of find_destinations lookup placements_at find
block-success = refl

read_block-success_example : length block.target ≡ 3
read_block-success_example =
    read_block-success join no_chunks mod_folder traced layout traced-IsExact fetch_write [] 0 0 3 0
      block-success
