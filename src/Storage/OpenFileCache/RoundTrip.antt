-- ===== src/Storage/OpenFileCache/RoundTrip.antt =====
-- A range of a file that is written and then read.

use wgrd_mod_manager.Storage.Paths.{FilePath, same_path, same_path_iff}
use wgrd_mod_manager.Storage.OpenFileCache.Transfers.{
  Transfers, read_from-slice, write_from-patched,
}
use wgrd_mod_manager.Storage.OpenFileCache.Entries.{take_out_cases, trim-take}
use wgrd_mod_manager.Storage.OpenFileCache.Content.{patched, slice-agrees, slice-patched}
use wgrd_mod_manager.Storage.OpenFileCache.{
  IFiles, Entry, maximum_handles, OpenFileCache, take_out, close_entry, open_file, acquire,
  read_from, write_from, read, write,
}
use wgrd_mod_manager.Common.{
  ℕ, ◌+◌, ◌^◌, ◌<◌, ◌≡◌, refl, sym, ap, ap₂, subst, ◌∙◌, inl, inr, Bool, true, false, not, ◌&&◌,
  none, some, List, ◌∷◌, if◌then◌else◌, Bool-cases, Option-cases, some-injective, length, take,
  Bytes,
}

-- the entry in front has the path and the handle
record Fronts (entries : List Entry) (path : FilePath) (h : ℕ) : Type 0 where
  front : Entry
  others : List Entry
  entries_are : entries ≡ front ∷ others
  path_is : front.path ≡ path
  handle_is : front.handle ≡ h

module _ {W : Type 0} (i : IFiles W) where
  open_file_front :
      (c : OpenFileCache W) (path : FilePath) (b : Bool) (h : ℕ)
      → (open_file i c path b).0 ≡ some h
      → Fronts (open_file i c path b).1.entries path h
  unfolding open_file
  open_file_front c path b h e =
      let w = if b then i.create_parents c.files path else c.files in
      elim (Option-cases (i.create_file w path b).0) [
        | inl f ↦ absurd (failed (sym (rw (f, open_file) refl) ∙ e))
        | inr (made, f) ↦
            let x : Entry = record { path = path; writable = b; handle = made } in
            let same_handle : made ≡ h = some-injective (sym (rw (f, open_file) refl) ∙ e) in
            record {
              front = x;
              others = take 7 c.entries;
              entries_are =
                  rw (f, open_file)
                    (trim-take i maximum_handles (i.create_file w path b).1 (x ∷ c.entries));
              path_is = refl;
              handle_is = same_handle;
            }
      ]
    where
      failed : none ≡ some h → ⊥
      failed e = cc

  acquire_front :
      (c : OpenFileCache W) (path : FilePath) (b : Bool) (h : ℕ)
      → (acquire i c path b).0 ≡ some h
      → Fronts (acquire i c path b).1.entries path h
  unfolding acquire
  acquire_front c path b h e = elim (take_out_cases path c.entries) [
    | inl (f, a) ↦
        let q : acquire i c path b ≡ open_file i c path b = rw (f, acquire) refl in
        subst (λ r. Fronts r.1.entries path h) (sym q)
          (open_file_front c path b h (sym (ap (λ r. r.0) q) ∙ e))
    | inr (x, others, f, t) ↦ elim (Bool-cases (b && not x.writable)) [
      | inl g ↦
          let c' : OpenFileCache W = record { entries = others; files = close_entry i c.files x } in
          let q : acquire i c path b ≡ open_file i c' path b = rw (f, acquire) (rw g refl) in
          subst (λ r. Fronts r.1.entries path h) (sym q)
            (open_file_front c' path b h (sym (ap (λ r. r.0) q) ∙ e))
      | inr g ↦
          let c' : OpenFileCache W = record { entries = x ∷ others; files = c.files } in
          let q : acquire i c path b ≡ (some x.handle, c') = rw (f, acquire) (rw g refl) in
          subst (λ r. Fronts r.1.entries path h) (sym q)
            record {
              front = x;
              others = others;
              entries_are = refl;
              path_is = t.has_path;
              handle_is = some-injective (sym (ap (λ r. r.0) q) ∙ e);
            }
    ]
  ]

  -- the handle of the entry in front serves a read of its path
  acquire-Fronts :
      (c : OpenFileCache W) (path : FilePath) (h : ℕ)
      → Fronts c.entries path h
      → acquire i c path false ≡ (some h, c)
  unfolding acquire take_out
  acquire-Fronts c path h v =
      let found : same_path v.front.path path ≡ true =
        (same_path_iff v.front.path path).1 v.path_is in
      let q : take_out path c.entries ≡ some (v.front, v.others) =
        ap (take_out path) v.entries_are ∙ rw (found, take_out) refl in
      let back : record { entries = v.front ∷ v.others; files = c.files } ≡ c =
        ap (λ es. record { entries = es; files = c.files }) (sym v.entries_are) in
      rw (q, acquire) (ap₂ (λ a d. (some a, d)) v.handle_is back)

module _ {W : Type 0} (i : IFiles W) (octet : W → ℕ → ℕ → ℕ) (laws : Transfers i octet) where
  -- What `Write` wrote, however many calls of Windows it took, a `Read` of the same range right
  -- after it gets back, if it answers at all: for fewer than 2 ^ 32 bytes at offsets below 2 ^ 64.
  pub read-write :
      (c : OpenFileCache W) (path : FilePath) (offset : ℕ) (bytes got : Bytes)
      → length bytes < 2 ^ 32
      → offset + length bytes < 2 ^ 64
      → (write i c path offset bytes).0 ≡ true
      → (read i (write i c path offset bytes).1 path offset (length bytes)).0 ≡ some got
      → got ≡ bytes
  unfolding write read
  read-write c path offset bytes got l m e r =
      let c' = (acquire i c path true).1 in
      elim (Option-cases (acquire i c path true).0) [
        | inl f ↦ absurd (refused (sym (rw (f, write) refl) ∙ e))
        | inr (h, f) ↦
            let w = (write_from i (length bytes) c'.files h offset bytes).1 in
            let after : OpenFileCache W = record c' { files = w } in
            let q : write i c path offset bytes
                ≡ ((write_from i (length bytes) c'.files h offset bytes).0, after) =
              rw (f, write) refl in
            let put =
              write_from-patched i octet laws (length bytes) c'.files h offset bytes l m
                (sym (ap (λ x. x.0) q) ∙ e) in
            let a = acquire-Fronts i after path h (acquire_front i c path true h f) in
            let s : (read i after path offset (length bytes)).0
                ≡ (read_from i (length bytes) w h offset (length bytes)).0 =
              rw (ap (λ x. x.0) a, read)
                (ap (λ x. (read_from i (length bytes) x.1.files h offset (length bytes)).0) a) in
            read_from-slice i octet laws (length bytes) w h offset (length bytes) got l m
              (sym s ∙ sym (ap (λ x. (read i x.1 path offset (length bytes)).0) q) ∙ r)
            ∙ slice-agrees (octet w h) (patched (octet c'.files h) offset bytes) offset
                (length bytes) (λ k p q. put k)
            ∙ slice-patched (octet c'.files h) offset bytes
      ]
    where
      refused : false ≡ true → ⊥
      refused e = cc
