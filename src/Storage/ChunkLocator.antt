-- ===== src/Storage/ChunkLocator.antt =====
-- src/downloader/storage/ChunkLocator: where the chunks that are shared lie in installed files, and
-- where the chunks that are fetched go. Each method holds a lock for its whole body, but `Register`,
-- which holds it for each file it registers.
pub mod Tidy
pub mod Found
pub mod Registered
pub mod Forgotten
pub mod Gone
pub mod Invariant
use wgrd_mod_manager.Domain.ChunkFileNaming.{manifest_file, file_name_for, leaf_of}
use wgrd_mod_manager.Domain.Manifest.{ManifestChunk, ManifestFile, ModManifest, torrent_name}
use wgrd_mod_manager.Storage.Paths.{FilePath, same_path, under_folder}
use wgrd_mod_manager.Common.Table.{Table, find, insert, erase}
use wgrd_mod_manager.Common.{
  ℕ, ◌^◌, Bool, true, false, not, ◌&&◌, Option, none, some, List, [], ◌∷◌, ◌++◌, leb, ◌==◌,
  if◌then◌else◌, length, any, keep, Bytes,
}
use wgrd_mod_manager.Payload.Paths.{to_slashes}

pub record ChunkLocation : Type 0 where
  pub file : FilePath
  pub offset : ℕ
  pub length : ℕ

abbrev pub Locations : Type 0
Locations = Table (List ChunkLocation)

pub record ChunkLocator : Type 0 where
  pub fetch_staging : FilePath
  pub verify_existing : Bool
  pub locations : Locations
  pub destinations : Locations

abbrev pub no_chunks : ChunkLocator
no_chunks = record {
  fetch_staging = [];
  verify_existing = false;
  locations = [];
  destinations = [];
}

unfoldable pub same_location : ChunkLocation → ChunkLocation → Bool
same_location a b = a.offset == b.offset && a.length == b.length && same_path a.file b.file

-- `operator[]`: an absent name has no placements
unfoldable pub placements_at : Bytes → Locations → List ChunkLocation
placements_at name table = elim (find name table) [ none ↦ [] | some placements ↦ placements ]

-- `Insert_`
unfoldable pub insert_location : Locations → Bytes → ChunkLocation → Locations
insert_location table name location =
    let placements = placements_at name table in
    let known = any (λ candidate. same_location candidate location) placements in
    insert name (if known then placements else placements ++ location ∷ []) table

-- `Lookup_`
unfoldable pub lookup : Locations → Bytes → List ChunkLocation
lookup table name =
    let normalised = to_slashes name in
    elim (find normalised table) [
      | some placements ↦ placements
      | none ↦ placements_at (leaf_of normalised) table
    ]

unfoldable pub register_file : ChunkLocator → Bytes → FilePath → ℕ → ℕ → Bool × ChunkLocator
register_file l name file offset size =
    let location : ChunkLocation = record { file = file; offset = offset; length = size } in
    if leb (2 ^ 32) size
    then (false, l)
    else (true, record l { locations = insert_location l.locations name location })

unfoldable pub register_destination : ChunkLocator → Bytes → FilePath → ℕ → ℕ → Bool × ChunkLocator
register_destination l name file offset size =
    let location : ChunkLocation = record { file = file; offset = offset; length = size } in
    if leb (2 ^ 32) size
    then (false, l)
    else (true, record l { destinations = insert_location l.destinations name location })

-- the inner loop of `Register`
unfoldable pub register_chunks : ChunkLocator → FilePath → List ManifestChunk → ChunkLocator
register_chunks l file [] = l
register_chunks l file (c ∷ chunks) =
    register_chunks (register_file l (file_name_for c.digest) file c.offset c.length).1 file chunks

-- a turn of the inner loop of `Forget`
unfoldable pub forget_name : Locations → FilePath → Bytes → Locations
forget_name table folder name = elim (find name table) [
  | none ↦ table
  | some placements ↦
      let kept = keep (λ (x : ChunkLocation). not (under_folder x.file folder)) placements in
      if length kept == 0 then erase name table else insert name kept table
]

-- the inner loop of `Forget`
unfoldable pub forget_chunks : Locations → FilePath → List ManifestChunk → Locations
forget_chunks table folder [] = table
forget_chunks table folder (c ∷ chunks) =
    forget_chunks (forget_name table folder (file_name_for c.digest)) folder chunks

unfoldable pub forget_files : Locations → FilePath → List ManifestFile → Locations
forget_files table folder [] = table
forget_files table folder (f ∷ files) =
    forget_files (forget_chunks table folder f.chunks) folder files

unfoldable pub forget : ChunkLocator → ModManifest → FilePath → ChunkLocator
forget l manifest folder =
    let name = torrent_name manifest ++ b'/' ∷ manifest_file in
    record l { locations = forget_files (erase name l.locations) folder manifest.files }

-- `std::filesystem`'s join of a folder and a relative path is a parameter
module _ (join : FilePath → Bytes → FilePath) where
  unfoldable pub register_files : ChunkLocator → FilePath → List ManifestFile → ChunkLocator
  register_files l folder [] = l
  register_files l folder (f ∷ files) =
      register_files (register_chunks l (join folder f.path) f.chunks) folder files

  unfoldable pub register : ChunkLocator → ModManifest → FilePath → ChunkLocator
  register l manifest folder = register_files l folder manifest.files

unfoldable pub find_location : ChunkLocator → Bytes → Option ChunkLocation
find_location l name = elim (lookup l.locations name) [
  | [] ↦ none
  | placement ∷ rest ↦ some placement
]

unfoldable pub find_destinations : ChunkLocator → Bytes → List ChunkLocation
find_destinations l name = lookup l.destinations name

unfoldable pub has_destination : ChunkLocator → Bytes → Bool
has_destination l name = not (length (lookup l.destinations name) == 0)

unfoldable pub clear_destinations : ChunkLocator → ChunkLocator
clear_destinations l = record l { destinations = [] }

unfoldable pub set_fetch_staging : ChunkLocator → FilePath → ChunkLocator
set_fetch_staging l folder = record l { fetch_staging = folder }

unfoldable pub is_fetch_staging : ChunkLocator → FilePath → Bool
is_fetch_staging l path = not (length l.fetch_staging == 0) && same_path l.fetch_staging path

unfoldable pub set_verify_existing : ChunkLocator → Bool → ChunkLocator
set_verify_existing l verify = record l { verify_existing = verify }
