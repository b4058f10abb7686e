-- ===== src/Storage/ChunkLocator/Invariant.antt =====
-- Any sequence of calls keeps both tables tidy.
use wgrd_mod_manager.Common.Table.{erase}
use wgrd_mod_manager.Common.{ℕ, ◌^◌, inl, inr, Bool, List, [], ◌∷◌, arith, leb, Bool-cases, Bytes}
use wgrd_mod_manager.Domain.Manifest.{ManifestChunk, ManifestFile, ModManifest}
use wgrd_mod_manager.Domain.ChunkFileNaming.{file_name_for}
use wgrd_mod_manager.Storage.Paths.{FilePath}
use wgrd_mod_manager.Storage.ChunkLocator.{
  ChunkLocator, register_file, register_destination, register_chunks, forget, register_files,
  register, clear_destinations, set_fetch_staging, set_verify_existing,
}
use wgrd_mod_manager.Storage.ChunkLocator.Tidy.{IsTidy, insert_location-IsTidy}
use wgrd_mod_manager.Storage.ChunkLocator.Gone.{forget_files-IsTidy, manifest_name, erase-IsTidy}

-- The calls that change the locator.
pub data Call : Type 0 where
  registers : ModManifest → FilePath → Call
  registers_file : Bytes → FilePath → ℕ → ℕ → Call
  registers_destination : Bytes → FilePath → ℕ → ℕ → Call
  forgets : ModManifest → FilePath → Call
  clears_destinations : Call
  stages_in : FilePath → Call
  verifies : Bool → Call

pub record IsLocator (l : ChunkLocator) : Type 0 where
  pub located : IsTidy l.locations
  pub destined : IsTidy l.destinations

register_file-IsLocator :
    (l : ChunkLocator) (name : Bytes) (file : FilePath) (offset size : ℕ)
    → IsLocator l
    → IsLocator (register_file l name file offset size).1
unfolding register_file
register_file-IsLocator l name file offset size v = elim (Bool-cases (leb (2 ^ 32) size)) [
  | inl h ↦ rw (h, register_file) v
  | inr h ↦
      rw (h, register_file)
        record {
          located =
              insert_location-IsTidy l.locations name
                (record { file = file; offset = offset; length = size }) (ground (arith, h))
                v.located;
          destined = v.destined;
        }
]

register_destination-IsLocator :
    (l : ChunkLocator) (name : Bytes) (file : FilePath) (offset size : ℕ)
    → IsLocator l
    → IsLocator (register_destination l name file offset size).1
unfolding register_destination
register_destination-IsLocator l name file offset size v = elim (Bool-cases (leb (2 ^ 32) size)) [
  | inl h ↦ rw (h, register_destination) v
  | inr h ↦
      rw (h, register_destination)
        record {
          located = v.located;
          destined =
              insert_location-IsTidy l.destinations name
                (record { file = file; offset = offset; length = size }) (ground (arith, h))
                v.destined;
        }
]

register_chunks-IsLocator :
    (l : ChunkLocator) (file : FilePath) (chunks : List ManifestChunk)
    → IsLocator l
    → IsLocator (register_chunks l file chunks)
unfolding register_chunks
register_chunks-IsLocator l file [] v = v
register_chunks-IsLocator l file (c ∷ chunks) v =
    register_chunks-IsLocator (register_file l (file_name_for c.digest) file c.offset c.length).1
      file chunks (register_file-IsLocator l (file_name_for c.digest) file c.offset c.length v)

module _ (join : FilePath → Bytes → FilePath) where
  unfoldable pub step : ChunkLocator → Call → ChunkLocator
  step l (registers m folder) = register join l m folder
  step l (registers_file name file offset size) = (register_file l name file offset size).1
  step l (registers_destination name file offset size) =
      (register_destination l name file offset size).1
  step l (forgets m folder) = forget l m folder
  step l clears_destinations = clear_destinations l
  step l (stages_in folder) = set_fetch_staging l folder
  step l (verifies verify) = set_verify_existing l verify

  unfoldable pub run : ChunkLocator → List Call → ChunkLocator
  run l [] = l
  run l (k ∷ calls) = run (step l k) calls

  register_files-IsLocator :
      (l : ChunkLocator) (folder : FilePath) (files : List ManifestFile)
      → IsLocator l
      → IsLocator (register_files join l folder files)
  unfolding register_files
  register_files-IsLocator l folder [] v = v
  register_files-IsLocator l folder (f ∷ files) v =
      register_files-IsLocator (register_chunks l (join folder f.path) f.chunks) folder files
        (register_chunks-IsLocator l (join folder f.path) f.chunks v)

  step-IsLocator : (l : ChunkLocator) (call : Call) → IsLocator l → IsLocator (step l call)
  unfolding step register forget clear_destinations set_fetch_staging set_verify_existing
  step-IsLocator l (registers m folder) v = register_files-IsLocator l folder m.files v
  step-IsLocator l (registers_file name file offset size) v =
      register_file-IsLocator l name file offset size v
  step-IsLocator l (registers_destination name file offset size) v =
      register_destination-IsLocator l name file offset size v
  step-IsLocator l (forgets m folder) v = record {
    located =
        forget_files-IsTidy folder (erase (manifest_name m) l.locations) m.files
          (erase-IsTidy l.locations (manifest_name m) v.located);
    destined = v.destined;
  }
  step-IsLocator l clears_destinations v = record {
    located = v.located;
    destined = record { ascends = tt; placed = tt };
  }
  step-IsLocator l (stages_in folder) v = record { located = v.located; destined = v.destined }
  step-IsLocator l (verifies verify) v = record { located = v.located; destined = v.destined }

  -- Every sequence of calls keeps the tables of placements and of destinations tidy: the names stand
  -- in order and once, each has a placement, and no two of its placements are the same or longer
  -- than 32 bits say.
  pub run-IsLocator : (l : ChunkLocator) (calls : List Call) → IsLocator l → IsLocator (run l calls)
  unfolding run
  run-IsLocator l [] v = v
  run-IsLocator l (k ∷ calls) v = run-IsLocator (step l k) calls (step-IsLocator l k v)
