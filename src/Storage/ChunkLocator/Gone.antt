-- ===== src/Storage/ChunkLocator/Gone.antt =====
-- What `Forget` of a manifest takes away, and what it leaves.
use wgrd_mod_manager.Common.{
  ◌≡◌, refl, ap, ◌∙◌, inl, inr, false, List, [], ◌∷◌, ◌++◌, All, All-imply, Bytes, same, same_refl,
}
use wgrd_mod_manager.Common.Table.{erase}
use wgrd_mod_manager.Common.Table.Laws.{erase-Ascends, All-erase}
use wgrd_mod_manager.Domain.Manifest.{ManifestChunk, ManifestFile, ModManifest, torrent_name}
use wgrd_mod_manager.Domain.ChunkFileNaming.{manifest_file, file_name_for}
use wgrd_mod_manager.Storage.Paths.{FilePath}
use wgrd_mod_manager.Storage.ChunkLocator.{
  Locations, ChunkLocator, placements_at, forget_name, forget_chunks, forget_files, forget,
}
use wgrd_mod_manager.Storage.ChunkLocator.Tidy.{IsPlaced, IsTidy, forget_name-IsTidy}
use wgrd_mod_manager.Storage.ChunkLocator.Forgotten.{
  away, placements_at-erase, IsAway, forget_name-IsAway, forget_name-away,
}

module _ (folder : FilePath) where
  forget_chunks-IsTidy :
      (table : Locations) (chunks : List ManifestChunk)
      → IsTidy table
      → IsTidy (forget_chunks table folder chunks)
  unfolding forget_chunks
  forget_chunks-IsTidy table [] v = v
  forget_chunks-IsTidy table (c ∷ chunks) v =
      forget_chunks-IsTidy (forget_name table folder (file_name_for c.digest)) chunks
        (forget_name-IsTidy table folder (file_name_for c.digest) v)

  pub forget_files-IsTidy :
      (table : Locations) (files : List ManifestFile)
      → IsTidy table
      → IsTidy (forget_files table folder files)
  unfolding forget_files
  forget_files-IsTidy table [] v = v
  forget_files-IsTidy table (f ∷ files) v =
      forget_files-IsTidy (forget_chunks table folder f.chunks) files
        (forget_chunks-IsTidy table f.chunks v)

  forget_chunks-IsAway :
      (table : Locations) (chunks : List ManifestChunk) (n : Bytes)
      → IsTidy table
      → IsAway table folder n
      → IsAway (forget_chunks table folder chunks) folder n
  unfolding forget_chunks
  forget_chunks-IsAway table [] n v h = h
  forget_chunks-IsAway table (c ∷ chunks) n v h =
      let name = file_name_for c.digest in
      forget_chunks-IsAway (forget_name table folder name) chunks n
        (forget_name-IsTidy table folder name v)
        (forget_name-IsAway table folder name n v.ascends (inr h))

  forget_files-IsAway :
      (table : Locations) (files : List ManifestFile) (n : Bytes)
      → IsTidy table
      → IsAway table folder n
      → IsAway (forget_files table folder files) folder n
  unfolding forget_files
  forget_files-IsAway table [] n v h = h
  forget_files-IsAway table (f ∷ files) n v h =
      forget_files-IsAway (forget_chunks table folder f.chunks) files n
        (forget_chunks-IsTidy table f.chunks v) (forget_chunks-IsAway table f.chunks n v h)

  each_chunk :
      (table : Locations) (chunks : List ManifestChunk)
      → IsTidy table
      → All (λ c. IsAway (forget_chunks table folder chunks) folder (file_name_for c.digest)) chunks
  unfolding forget_chunks
  each_chunk table [] v = tt
  each_chunk table (c ∷ chunks) v =
      let name = file_name_for c.digest in
      let v' = forget_name-IsTidy table folder name v in
      (
        forget_chunks-IsAway (forget_name table folder name) chunks name v'
            (forget_name-IsAway table folder name name v.ascends (inl (same_refl name))),
        each_chunk (forget_name table folder name) chunks v',
      )

  each_file :
      (table : Locations) (files : List ManifestFile)
      → IsTidy table
      → All
          (λ f.
            All
              (λ c. IsAway (forget_files table folder files) folder (file_name_for c.digest))
              f.chunks)
          files
  unfolding forget_files
  each_file table [] v = tt
  each_file table (f ∷ files) v =
      let table' = forget_chunks table folder f.chunks in
      let v' = forget_chunks-IsTidy table f.chunks v in
      (
        All-imply (λ c. IsAway table' folder (file_name_for c.digest))
            (λ c. IsAway (forget_files table' folder files) folder (file_name_for c.digest))
            (λ c h. forget_files-IsAway table' files (file_name_for c.digest) v' h) f.chunks
            (each_chunk table f.chunks v),
        each_file table' files v',
      )

  forget_chunks-away :
      (table : Locations) (chunks : List ManifestChunk) (n : Bytes)
      → IsTidy table
      → away folder (placements_at n (forget_chunks table folder chunks))
        ≡ away folder (placements_at n table)
  unfolding forget_chunks
  forget_chunks-away table [] n v = refl
  forget_chunks-away table (c ∷ chunks) n v =
      let name = file_name_for c.digest in
      forget_chunks-away (forget_name table folder name) chunks n
        (forget_name-IsTidy table folder name v)
      ∙ forget_name-away table folder name n v.ascends

  forget_files-away :
      (table : Locations) (files : List ManifestFile) (n : Bytes)
      → IsTidy table
      → away folder (placements_at n (forget_files table folder files))
        ≡ away folder (placements_at n table)
  unfolding forget_files
  forget_files-away table [] n v = refl
  forget_files-away table (f ∷ files) n v =
      forget_files-away (forget_chunks table folder f.chunks) files n
        (forget_chunks-IsTidy table f.chunks v)
      ∙ forget_chunks-away table f.chunks n v

-- the name under which the manifest itself is shared
abbrev pub manifest_name : ModManifest → Bytes
manifest_name m = torrent_name m ++ b'/' ∷ manifest_file

pub erase-IsTidy : (table : Locations) (name : Bytes) → IsTidy table → IsTidy (erase name table)
erase-IsTidy table name v = record {
  ascends = erase-Ascends name table v.ascends;
  placed = All-erase IsPlaced name table v.placed;
}

-- After `Forget` of a manifest in a tidy locator, no chunk of the manifest has a placement under the
-- mod's folder; and of every name but the manifest's own, no placement outside the folder is lost
-- or added.
pub forget-IsAway :
    (l : ChunkLocator) (m : ModManifest) (folder : FilePath)
    → IsTidy l.locations
    → All
        (λ f.
          All (λ c. IsAway (forget l m folder).locations folder (file_name_for c.digest)) f.chunks)
        m.files
      × ((n : Bytes)
          → same n (manifest_name m) ≡ false
          → away folder (placements_at n (forget l m folder).locations)
            ≡ away folder (placements_at n l.locations))
unfolding forget
forget-IsAway l m folder v =
    let table = erase (manifest_name m) l.locations in
    let v' = erase-IsTidy l.locations (manifest_name m) v in
    (
      each_file folder table m.files v',
      λ n e.
          forget_files-away folder table m.files n v'
          ∙ ap (away folder)
              (placements_at-erase n (manifest_name m) l.locations v.ascends ∙ rw e refl),
    )
