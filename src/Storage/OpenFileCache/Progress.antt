-- ===== src/Storage/OpenFileCache/Progress.antt =====
-- The loop of `Write` comes to an end.
use wgrd_mod_manager.Common.{
  ℕ, zero, suc, ◌+◌, ◌%◌, ◌^◌, ◌≤◌, ◌<◌, ◌≡◌, refl, inl, inr, true, some, arith, ◌==◌, Bool-cases,
  length, take, drop, length-take, length-drop, Bytes,
}
use wgrd_mod_manager.Storage.Paths.{FilePath}
use wgrd_mod_manager.Storage.OpenFileCache.{IFiles, OpenFileCache, acquire, write_from, write}

-- a disk on which no write fails: each takes one byte at least, where there is one
abbrev pub IsWritable : {W : Type 0} → IFiles W → Type 0
IsWritable {W = W} i =
    (w : W) (h at : ℕ) (bytes : Bytes)
    → 0 < length bytes
    → (n : ℕ) × ((i.write_file w h at bytes).0 ≡ some (suc n))

module _ {W : Type 0} (i : IFiles W) (works : IsWritable i) where
  write_from_ends :
      (fuel : ℕ) (w : W) (h at : ℕ) (bytes : Bytes)
      → length bytes ≤ fuel
      → length bytes < 2 ^ 32
      → (write_from i fuel w h at bytes).0 ≡ true
  unfolding write_from
  write_from_ends zero w h at bytes l m = ground arith
  write_from_ends (suc fuel) w h at bytes l m = elim (Bool-cases (length bytes == 0)) [
    | inl f ↦ rw (f, write_from) refl
    | inr f ↦
        let part = take (length bytes % 2 ^ 32) bytes in
        let some_left : 0 < length part =
          ground (arith, length-take (length bytes % 2 ^ 32) bytes) in
        let (n, g) = works w h (at % 2 ^ 64) part some_left in
        rw (f, write_from)
          (rw g (
            write_from_ends fuel (i.write_file w h (at % 2 ^ 64) part).1 h (at + suc n)
              (drop (suc n) bytes) (omega (arith, length-drop (suc n) bytes))
              (omega (arith, length-drop (suc n) bytes))))
  ]

  -- On a disk where no write fails, `Write` of fewer than 2 ^ 32 bytes to a file that can be opened
  -- comes to an end and answers true, however few bytes Windows takes in a turn.
  pub write_ends :
      (c : OpenFileCache W) (path : FilePath) (offset : ℕ) (bytes : Bytes) (h : ℕ)
      → length bytes < 2 ^ 32
      → (acquire i c path true).0 ≡ some h
      → (write i c path offset bytes).0 ≡ true
  unfolding write
  write_ends c path offset bytes h l e =
      rw (e, write)
        (write_from_ends (length bytes) (acquire i c path true).1.files h offset bytes (omega arith)
          l)
