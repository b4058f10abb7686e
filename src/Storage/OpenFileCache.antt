-- ===== src/Storage/OpenFileCache.antt =====
-- src/downloader/storage/OpenFileCache: the open files, the one used last first. The calls of
-- Windows are a parameter; a handle is a number, 0 the null pointer,
-- and `none` stands for INVALID_HANDLE_VALUE.
pub mod Bounds
pub mod Entries
pub mod Opens
pub mod Keeps
pub mod Invariant
pub mod Content
pub mod Transfers
pub mod RoundTrip
pub mod Progress
use wgrd_mod_manager.Common.{
  ℕ, zero, suc, ◌+◌, ◌-◌, ◌%◌, ◌^◌, Bool, true, false, not, ◌&&◌, Option, none, some, List, [], ◌∷◌,
  ◌++◌, ◌==◌, if◌then◌else◌, length, take, drop, Bytes,
}
use wgrd_mod_manager.Storage.Paths.{FilePath, same_path}

-- What Windows does to its state.
pub record IFiles (W : Type 0) : Type 0 where
  -- `create_directories(path.parent_path())`
  pub create_parents : W → FilePath → W
  -- `CreateFileW`, for reading and, on `true`, for writing as well
  pub create_file : W → FilePath → Bool → Option ℕ × W
  pub close_handle : W → ℕ → W
  -- `ReadFile` of at most so many bytes at an offset: `none` when it fails
  pub read_file : W → ℕ → ℕ → ℕ → Option Bytes × W
  -- `WriteFile` of bytes at an offset: how many it took
  pub write_file : W → ℕ → ℕ → Bytes → Option ℕ × W

pub record Entry : Type 0 where
  pub path : FilePath
  pub writable : Bool
  pub handle : ℕ

abbrev pub maximum_handles : ℕ
maximum_handles = 8

-- `_entries`, and the state of Windows
pub record OpenFileCache (W : Type 0) : Type 0 where
  pub entries : List Entry
  pub files : W

-- the first entry of the path, and the entries without it
unfoldable pub take_out : FilePath → List Entry → Option (Entry × List Entry)
take_out path [] = none
take_out path (e ∷ entries) =
    let rest = take_out path entries in
    if same_path e.path path
    then some (e, entries)
    else elim rest [ none ↦ none | some (found, others) ↦ some (found, e ∷ others) ]

module _ {W : Type 0} (i : IFiles W) where
  -- `Close_`
  unfoldable pub close_entry : W → Entry → W
  close_entry w e = if e.handle == 0 then w else i.close_handle w e.handle

  -- the loop that closes entries from the back until so many are left
  unfoldable pub trim : ℕ → W → List Entry → List Entry × W
  trim room w [] = ([], w)
  trim zero w (e ∷ entries) = let (kept, w') = trim zero w entries in (kept, close_entry w' e)
  trim (suc room) w (e ∷ entries) = let (kept, w') = trim room w entries in (e ∷ kept, w')

  -- `Acquire_` of a path that has no entry
  unfoldable pub open_file : OpenFileCache W → FilePath → Bool → Option ℕ × OpenFileCache W
  open_file c path need_write =
      let w = if need_write then i.create_parents c.files path else c.files in
      let (made, w') = i.create_file w path need_write in
      elim made [
        | none ↦ (none, record { entries = c.entries; files = w' })
        | some h ↦
            let e : Entry = record { path = path; writable = need_write; handle = h } in
            let (kept, w'') = trim maximum_handles w' (e ∷ c.entries) in
            (some h, record { entries = kept; files = w'' })
      ]

  -- `Acquire_`: the handle of the entry that stands first then
  unfoldable pub acquire : OpenFileCache W → FilePath → Bool → Option ℕ × OpenFileCache W
  acquire c path need_write = elim (take_out path c.entries) [
    | none ↦ open_file c path need_write
    | some (e, others) ↦
        if need_write && not e.writable
        then open_file (record { entries = others; files = close_entry c.files e }) path need_write
        else (some e.handle, record { entries = e ∷ others; files = c.files })
  ]

  -- the loop of `Read`, from an offset, with so many bytes left
  unfoldable pub read_from : ℕ → W → ℕ → ℕ → ℕ → Option Bytes × W
  read_from zero w h at left = (if left == 0 then some [] else none, w)
  read_from (suc fuel) w h at left =
      if left == 0
      then (some [], w)
      else (let (taken, w') = i.read_file w h (at % 2 ^ 64) (left % 2 ^ 32) in
          elim taken [
            | none ↦ (none, w')
            | some [] ↦ (none, w')
            | some (b ∷ bytes) ↦
                let moved = length (b ∷ bytes) in
                let (rest, w'') = read_from fuel w' h (at + moved) (left - moved) in
                elim rest [ none ↦ (none, w'') | some more ↦ (some ((b ∷ bytes) ++ more), w'') ]
          ])

  -- the loop of `Write`, of the bytes that are left
  unfoldable pub write_from : ℕ → W → ℕ → ℕ → Bytes → Bool × W
  write_from zero w h at bytes = (length bytes == 0, w)
  write_from (suc fuel) w h at bytes =
      if length bytes == 0
      then (true, w)
      else (let (taken, w') = i.write_file w h (at % 2 ^ 64) (take (length bytes % 2 ^ 32) bytes) in
          elim taken [
            | none ↦ (false, w')
            | some zero ↦ (false, w')
            | some (suc n) ↦ write_from fuel w' h (at + suc n) (drop (suc n) bytes)
          ])

  -- what `Read` stores at its target, when it answers true; a turn reads one byte at least
  unfoldable pub read : OpenFileCache W → FilePath → ℕ → ℕ → Option Bytes × OpenFileCache W
  read c source offset size =
      let (acquired, c') = acquire c source false in
      elim acquired [
        | none ↦ (none, c')
        | some h ↦
            let (bytes, w) = read_from size c'.files h offset size in
            (bytes, record c' { files = w })
      ]

  unfoldable pub write : OpenFileCache W → FilePath → ℕ → Bytes → Bool × OpenFileCache W
  write c target offset bytes =
      let (acquired, c') = acquire c target true in
      elim acquired [
        | none ↦ (false, c')
        | some h ↦
            let (done, w) = write_from (length bytes) c'.files h offset bytes in
            (done, record c' { files = w })
      ]

  -- the loop of `Forget`
  unfoldable pub forget_from : W → FilePath → List Entry → List Entry × W
  forget_from w path [] = ([], w)
  forget_from w path (e ∷ entries) =
      let w' = if same_path e.path path then close_entry w e else w in
      let (kept, w'') = forget_from w' path entries in
      (if same_path e.path path then kept else e ∷ kept, w'')

  unfoldable pub forget : OpenFileCache W → FilePath → OpenFileCache W
  forget c path =
      let (kept, w) = forget_from c.files path c.entries in record { entries = kept; files = w }

  -- the loop of `Clear`
  unfoldable pub close_all : W → List Entry → W
  close_all w [] = w
  close_all w (e ∷ entries) = close_all (close_entry w e) entries

  unfoldable pub clear : OpenFileCache W → OpenFileCache W
  clear c = record { entries = []; files = close_all c.files c.entries }
