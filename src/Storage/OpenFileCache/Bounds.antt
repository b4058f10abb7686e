-- ===== src/Storage/OpenFileCache/Bounds.antt =====
-- The cache stays small, has no path twice, and closes every handle it opened.
use wgrd_mod_manager.Storage.OpenFileCache.{
  IFiles, Entry, maximum_handles, OpenFileCache, close_entry, trim,
}
use wgrd_mod_manager.Common.{
  ℕ, zero, suc, ◌+◌, ◌≤◌, ◌<◌, ◌≡◌, Bool, true, false, none, some, List, [], ◌∷◌, arith, ◌==◌,
  if◌then◌else◌, length, All, Bytes,
}
use wgrd_mod_manager.Storage.Paths.{FilePath, same_path}

abbrev pub one : ℕ → ℕ → ℕ
one h k = if h == k then 1 else 0

-- How many open handles have a number, as Windows documents it: a new handle is one more, and one
-- that is open can be closed.
pub record Counts {W : Type 0} (i : IFiles W) (opens : W → ℕ → ℕ) : Type 0 where
  pub at_parents : (w : W) (path : FilePath) (k : ℕ) → opens (i.create_parents w path) k ≡ opens w k
  pub at_failure :
      (w : W) (path : FilePath) (b : Bool) (k : ℕ)
      → (i.create_file w path b).0 ≡ none
      → opens (i.create_file w path b).1 k ≡ opens w k
  pub at_create :
      (w : W) (path : FilePath) (b : Bool) (h k : ℕ)
      → (i.create_file w path b).0 ≡ some h
      → (0 < h) × (opens (i.create_file w path b).1 k ≡ opens w k + one h k)
  pub at_close :
      (w : W) (h k : ℕ) → 0 < opens w h → opens (i.close_handle w h) k + one h k ≡ opens w k
  pub at_read : (w : W) (h at n k : ℕ) → opens (i.read_file w h at n).1 k ≡ opens w k
  pub at_write :
      (w : W) (h at : ℕ) (b : Bytes) (k : ℕ) → opens (i.write_file w h at b).1 k ≡ opens w k

-- how many entries hold a handle
abbrev pub held : List Entry → ℕ → ℕ
held [] k = 0
held (e ∷ entries) k = one e.handle k + held entries k

abbrev pub HasPath : FilePath → Entry → Type 0
HasPath path e = same_path e.path path ≡ true

abbrev pub IsAway : FilePath → Entry → Type 0
IsAway path e = same_path e.path path ≡ false

-- no two entries have one path
abbrev pub AreDistinct : List Entry → Type 0
AreDistinct [] = Unit
AreDistinct (e ∷ entries) = All (IsAway e.path) entries × AreDistinct entries

module _ {W : Type 0} (i : IFiles W) (opens : W → ℕ → ℕ) (base : ℕ → ℕ) where
  -- the open handles are those of before and those of the entries
  abbrev Accounted : List Entry → W → Type 0
  Accounted entries w =
      All (λ e. 0 < e.handle) entries × ((k : ℕ) → opens w k ≡ held entries k + base k)

  pub record IsCache (c : OpenFileCache W) : Type 0 where
    pub size_max : length c.entries ≤ maximum_handles
    pub distinct : AreDistinct c.entries
    pub positive : All (λ e. 0 < e.handle) c.entries
    pub accounted : (k : ℕ) → opens c.files k ≡ held c.entries k + base k

  module _ (laws : Counts i opens) where
    -- when the entry and others are accounted for, closing it leaves the others
    pub close_entry-Accounted :
        (w : W) (e : Entry) (n : ℕ → ℕ)
        → 0 < e.handle
        → ((k : ℕ) → opens w k ≡ one e.handle k + n k)
        → (k : ℕ) → opens (close_entry i w e) k ≡ n k
    unfolding close_entry
    close_entry-Accounted w e n p a k = ground (arith, laws.at_close w e.handle k, a k, a e.handle)

    pub trim-Accounted :
        (room : ℕ) (w : W) (entries : List Entry) (n : ℕ → ℕ)
        → All (λ e. 0 < e.handle) entries
        → ((k : ℕ) → opens w k ≡ held entries k + n k)
        → (k : ℕ) → opens (trim i room w entries).1 k ≡ held (trim i room w entries).0 k + n k
    unfolding trim
    trim-Accounted room w [] n p a k = a k
    trim-Accounted zero w (e ∷ entries) n p a k =
        close_entry-Accounted (trim i zero w entries).1 e
          (λ k. held (trim i zero w entries).0 k + n k) p.0
          (λ k. ground (
            arith,
            trim-Accounted zero w entries (λ k. one e.handle k + n k) p.1 (λ k. ground (arith, a k))
                k,
          ))
          k
    trim-Accounted (suc room) w (e ∷ entries) n p a k = ground (
      arith,
      trim-Accounted room w entries (λ k. one e.handle k + n k) p.1 (λ k. ground (arith, a k)) k,
    )
