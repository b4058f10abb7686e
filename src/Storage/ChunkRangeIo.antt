-- ===== src/Storage/ChunkRangeIo.antt =====
-- src/downloader/storage/ChunkRangeIo: a block of a torrent's piece is read from the places where its
-- chunks lie, or written to all places where they go.
pub mod Written
pub mod Got
use wgrd_mod_manager.Common.{
  ℕ, ◌+◌, ◌%◌, ◌^◌, Bool, true, false, Option, none, some, List, [], ◌∷◌, ◌++◌, ltb, ◌==◌,
  if◌then◌else◌, length, take, drop, replicate, Bytes,
}
use wgrd_mod_manager.Storage.Paths.{FilePath}
use wgrd_mod_manager.Storage.OpenFileCache.{IFiles, OpenFileCache, read, write}
use wgrd_mod_manager.Storage.ChunkLocator.{
  ChunkLocation, ChunkLocator, find_location, find_destinations,
}

pub data StorageRole : Type 0 where
  seed_read fetch_write : StorageRole

pub data ReadOutcome : Type 0 where
  success absent fault : ReadOutcome

-- `libtorrent::file_slice`
pub record FileSlice : Type 0 where
  pub file_index : ℕ
  pub offset : ℕ
  pub size : ℕ

-- `libtorrent::file_storage`, as far as it is asked
pub record IFileStorage : Type 0 where
  pub map_block : ℕ → ℕ → ℕ → List FileSlice
  pub pad_file_at : ℕ → Bool
  pub file_path : ℕ → Bytes

-- `ReadFileRange_` and `WriteFileRange_`
pub record IRanges (S : Type 0) : Type 0 where
  pub read_range : S → FilePath → ℕ → ℕ → Option Bytes × S
  pub write_range : S → FilePath → ℕ → Bytes → Bool × S

-- The open files.
abbrev pub cache_ranges : {W : Type 0} → IFiles W → IRanges (OpenFileCache W)
cache_ranges i = record {
  read_range = λ c file offset size. read i c file offset size;
  write_range = λ c file offset bytes. write i c file offset bytes;
}

-- What `Read` leaves: its outcome, its target so far, `failedFile`, and the files.
pub record ReadEnd (S : Type 0) : Type 0 where
  pub outcome : ReadOutcome
  pub target : Bytes
  pub failed_file : ℕ
  pub ranges : S

-- the end of a slice lies behind the end of the chunk
abbrev pub is_beyond : FileSlice → ChunkLocation → Bool
is_beyond slice location = ltb location.length (slice.offset + slice.size)

abbrev pub offset_in : ChunkLocation → FileSlice → ℕ
offset_in location slice = (location.offset + slice.offset) % 2 ^ 64

module _ (join : FilePath → Bytes → FilePath) (l : ChunkLocator) (save_path : FilePath) where
  -- the file and the offset that a slice is read from, if there is one
  unfoldable pub source_of : StorageRole → Bytes → FileSlice → Option (FilePath × ℕ)
  source_of fetch_write relative slice = elim (find_destinations l relative) [
    | [] ↦ some (join save_path relative, slice.offset)
    | destination ∷ rest ↦
        if is_beyond slice destination
        then none
        else some (destination.file, offset_in destination slice)
  ]
  source_of seed_read relative slice = elim (find_location l relative) [
    | none ↦ none
    | some location ↦
        if is_beyond slice location then none else some (location.file, offset_in location slice)
  ]

  module _ {S : Type 0} (r : IRanges S) where
    -- the loop over the destinations of one slice
    unfoldable pub write_places : S → FileSlice → Bytes → List ChunkLocation → Bool × S
    write_places s slice bytes [] = (true, s)
    write_places s slice bytes (location ∷ places) =
        let (put, s') = r.write_range s location.file (offset_in location slice) bytes in
        let rest = write_places s' slice bytes places in
        if is_beyond slice location then (false, s) else if put then rest else (false, s')

    unfoldable pub write_slice : S → Bytes → FileSlice → Bytes → Bool × S
    write_slice s relative slice bytes = elim (find_destinations l relative) [
      | [] ↦ r.write_range s (join save_path relative) slice.offset bytes
      | destination ∷ rest ↦ write_places s slice bytes (destination ∷ rest)
    ]

    module _ (files : IFileStorage) where
      -- the loop of `Read`
      unfoldable pub read_slices : StorageRole → S → ℕ → ℕ → Bytes → ℕ → List FileSlice → ReadEnd S
      read_slices role s size written target failed [] = record {
        outcome = if written == size then success else fault;
        target = target;
        failed_file = failed;
        ranges = s;
      }
      read_slices role s size written target failed (slice ∷ slices) =
          let written' = written + slice.size in
          let index = slice.file_index in
          let relative = files.file_path index in
          if files.pad_file_at index
          then read_slices role s size written' (target ++ replicate slice.size 0) failed slices
          else elim (source_of role relative slice) [
            | none ↦ record { outcome = fault; target = target; failed_file = index; ranges = s }
            | some (file, offset) ↦
                let (got, s') = r.read_range s file offset slice.size in
                elim got [
                  | none ↦ record {
                    outcome = elim role [ fetch_write ↦ absent | seed_read ↦ fault ];
                    target = target;
                    failed_file = index;
                    ranges = s';
                  }
                  | some bytes ↦ read_slices role s' size written' (target ++ bytes) index slices
                ]
          ]

      unfoldable pub read_block : StorageRole → S → ℕ → ℕ → ℕ → ℕ → ReadEnd S
      read_block role s piece offset size failed =
          read_slices role s size 0 [] failed (files.map_block piece offset size)

      -- the loop of `Write`
      unfoldable pub write_slices : S → ℕ → ℕ → Bytes → List FileSlice → Bool × S
      write_slices s size consumed source [] = (consumed == size, s)
      write_slices s size consumed source (slice ∷ slices) =
          let consumed' = consumed + slice.size in
          let relative = files.file_path slice.file_index in
          let (put, s') = write_slice s relative slice (take slice.size (drop consumed source)) in
          if files.pad_file_at slice.file_index
          then write_slices s size consumed' source slices
          else if put
          then write_slices s' size consumed' source slices
          else (false, s')

      unfoldable pub write_block : StorageRole → S → ℕ → ℕ → Bytes → Bool × S
      write_block seed_read s piece offset source = (false, s)
      write_block fetch_write s piece offset source =
          write_slices s (length source) 0 source (files.map_block piece offset (length source))
