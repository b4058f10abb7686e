-- ===== src/Tests/Storage.antt =====
-- The storage of torrents, over a disk of one file.

use wgrd_mod_manager.Common.{
  ℕ, zero, suc, ◌+◌, ◌-◌, ◌≤◌, ◌<◌, ◌≡◌, refl, ap, subst, true, none, some, List, [], ◌∷◌, arith,
  ◌==◌, if◌then◌else◌, some-injective, length, take, Bytes, codes, same,
}
use wgrd_mod_manager.Storage.Paths.{FilePath, same_path}
use wgrd_mod_manager.Storage.OpenFileCache.RoundTrip.{read-write}
use wgrd_mod_manager.Storage.OpenFileCache.Transfers.{Transfers}
use wgrd_mod_manager.Storage.OpenFileCache.Content.{slice, patched}
use wgrd_mod_manager.Storage.OpenFileCache.{
  IFiles, OpenFileCache, take_out, trim, open_file, acquire, read_from, write_from, read, write,
  clear,
}
use wgrd_mod_manager.Storage.OpenFileCache.Bounds.{one, Counts, IsCache}
use wgrd_mod_manager.Storage.OpenFileCache.Invariant.{
  Call, reads, writes, forgets, run, run-IsCache, clear-run,
}
use wgrd_mod_manager.Storage.OpenFileCache.Progress.{IsWritable, write_ends}

-- a state of Windows: the octets of its one file, how many handles were made, and which are open
record Disk : Type 0 where
  octets : ℕ → ℕ
  made : ℕ
  open_ : ℕ → ℕ

-- Reads get one octet at a time, and writes put one.
abbrev disk_files : IFiles Disk
disk_files = record {
  create_parents = λ w path. w;
  create_file = λ w path writable. (
    some (suc w.made),
    record w { made = suc w.made; open_ = λ k. w.open_ k + one (suc w.made) k },
  );
  close_handle = λ w h. record w { open_ = λ k. w.open_ k - one h k };
  read_file = λ w h at n. (if n == 0 then some [] else some (w.octets at ∷ []), w);
  write_file = λ w h at bytes.
      (some (length (take 1 bytes)), record w { octets = patched w.octets at (take 1 bytes) });
}

abbrev empty_disk : Disk
empty_disk = record { octets = λ k. 0; made = 0; open_ = λ k. 0 }

disk-Counts : Counts disk_files (λ w. w.open_)
disk-Counts = record {
  at_parents = λ w path k. refl;
  at_failure = λ w path b k h. absurd (some_handle w h);
  at_create = λ w path b h k e. created w h k (some-injective e);
  at_close = λ w h k p. ground arith;
  at_read = λ w h at n k. refl;
  at_write = λ w h at b k. refl;
}
  where
    some_handle : (w : Disk) → some (suc w.made) ≡ none → ⊥
    some_handle w h = cc

    created :
        (w : Disk) (h k : ℕ)
        → suc w.made ≡ h
        → (0 < h) × (w.open_ k + one (suc w.made) k ≡ w.open_ k + one h k)
    created w h k e = (omega (arith, e), ap (λ n. w.open_ k + one n k) e)

disk_read :
    (f : ℕ → ℕ) (at n : ℕ) (bytes : Bytes)
    → (if n == 0 then some [] else some (f at ∷ [])) ≡ some bytes
    → (length bytes ≤ n) × (bytes ≡ slice f at (length bytes))
disk_read f at zero bytes e =
    subst (λ b. (length b ≤ 0) × (b ≡ slice f at (length b))) (some-injective e) (omega arith, refl)
disk_read f at (suc n) bytes e =
    let e' : some (f at ∷ []) ≡ some bytes = ground (arith, e) in
    subst (λ b. (length b ≤ suc n) × (b ≡ slice f at (length b))) (some-injective e')
      (omega arith, refl)

disk_write :
    (f : ℕ → ℕ) (at : ℕ) (bytes : Bytes) (n : ℕ)
    → some (length (take 1 bytes)) ≡ some n
    → (n ≤ length bytes) × ((k : ℕ) → patched f at (take 1 bytes) k ≡ patched f at (take n bytes) k)
disk_write f at [] n e =
    subst (λ m. (m ≤ 0) × ((k : ℕ) → patched f at [] k ≡ patched f at (take m []) k))
      (some-injective e) (omega arith, λ k. refl)
disk_write f at (b ∷ bytes) n e =
    subst
      (λ m.
        (m ≤ length (b ∷ bytes))
        × ((k : ℕ) → patched f at (b ∷ []) k ≡ patched f at (take m (b ∷ bytes)) k))
      (some-injective e) (omega arith, λ k. refl)

disk-Transfers : Transfers disk_files (λ w h. w.octets)
disk-Transfers = record {
  at_read = λ w h at n bytes e. let (l, r) = disk_read w.octets at n bytes e in (l, r, λ k. refl);
  at_write = λ w h at bytes n e. disk_write w.octets at bytes n e;
}

disk-IsWritable : IsWritable disk_files
disk-IsWritable w h at (b ∷ bytes) l = (0, refl)
disk-IsWritable w h at [] l = absurd (omega arith)

abbrev map_path : FilePath
map_path = codes "mods" ∷ codes "map" ∷ []

abbrev cache : OpenFileCache Disk
cache = record { entries = []; files = empty_disk }

abbrev some_calls : List Call
some_calls = writes map_path 5 (1 ∷ 2 ∷ []) ∷ reads map_path 5 2 ∷ forgets (codes "mods" ∷ []) ∷ []

run-IsCache_example : IsCache disk_files (λ w. w.open_) (λ k. 0) (run disk_files cache some_calls)
run-IsCache_example =
    run-IsCache disk_files (λ w. w.open_) (λ k. 0) disk-Counts cache some_calls
      record { size_max = omega arith; distinct = tt; positive = tt; accounted = λ k. omega arith }

clear-run_example : (clear disk_files (run disk_files cache some_calls)).files.open_ 1 ≡ 0
clear-run_example =
    clear-run disk_files (λ w. w.open_) (λ k. 0) disk-Counts empty_disk some_calls (λ k. refl) 1

map_path-acquire : (acquire disk_files cache map_path true).0 ≡ some 1
unfolding acquire take_out open_file trim
map_path-acquire = refl

write_ends_example : (write disk_files cache map_path 5 (1 ∷ 2 ∷ [])).0 ≡ true
write_ends_example =
    write_ends disk_files disk-IsWritable cache map_path 5 (1 ∷ 2 ∷ []) 1 (omega arith)
      map_path-acquire

abbrev written : Bytes
written = 1 ∷ 2 ∷ []

map_path-write : (write disk_files cache map_path 5 (1 ∷ 2 ∷ [])).0 ≡ true
map_path-write =
    write_ends disk_files disk-IsWritable cache map_path 5 (1 ∷ 2 ∷ []) 1 (omega arith)
      map_path-acquire

map_path-read :
    (read disk_files (write disk_files cache map_path 5 (1 ∷ 2 ∷ [])).1 map_path 5 2).0
    ≡ some (1 ∷ 2 ∷ [])
unfolding write read acquire take_out open_file trim write_from read_from same_path same
map_path-read = refl

read-write_example : written ≡ written
read-write_example =
    read-write disk_files (λ w h. w.octets) disk-Transfers cache map_path 5 (1 ∷ 2 ∷ [])
      (1 ∷ 2 ∷ []) (omega arith) (omega arith) map_path-write map_path-read
