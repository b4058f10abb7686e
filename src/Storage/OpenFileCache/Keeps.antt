-- ===== src/Storage/OpenFileCache/Keeps.antt =====
-- Each operation keeps the cache in bounds and accounts for each handle.
use wgrd_mod_manager.Common.{
  ℕ, ◌+◌, ◌<◌, ◌≡◌, refl, sym, subst, ◌∙◌, inl, inr, Bool, true, false, not, ◌&&◌, List, [], ◌∷◌,
  arith, if◌then◌else◌, Bool-cases, Option-cases, All, length-take, length-keep-le, All-take,
  All-keep,
}
use wgrd_mod_manager.Storage.Paths.{FilePath, same_path}
use wgrd_mod_manager.Storage.OpenFileCache.{
  IFiles, Entry, maximum_handles, OpenFileCache, close_entry, open_file, acquire, forget_from,
  forget, close_all, clear,
}
use wgrd_mod_manager.Storage.OpenFileCache.Bounds.{
  one, Counts, held, IsAway, IsCache, close_entry-Accounted, trim-Accounted,
}
use wgrd_mod_manager.Storage.OpenFileCache.Entries.{
  Taken, take_out_cases, AreDistinct-take, AreDistinct-keep, trim-take, forget_from-keep,
}

module _ {W : Type 0} (i : IFiles W) (opens : W → ℕ → ℕ) (base : ℕ → ℕ)
    (laws : Counts i opens) where
  close_all-Accounted :
      (w : W) (entries : List Entry)
      → All (λ e. 0 < e.handle) entries
      → ((k : ℕ) → opens w k ≡ held entries k + base k)
      → (k : ℕ) → opens (close_all i w entries) k ≡ base k
  unfolding close_all
  close_all-Accounted w [] p a = λ k. omega (arith, a k)
  close_all-Accounted w (e ∷ entries) p a = close_all-Accounted (close_entry i w e) entries p.1 (
      close_entry-Accounted i opens base laws w e (λ k. held entries k + base k) p.0
        (λ k. omega (arith, a k)))

  forget_from-Accounted :
      (w : W) (path : FilePath) (entries : List Entry) (n : ℕ → ℕ)
      → All (λ e. 0 < e.handle) entries
      → ((k : ℕ) → opens w k ≡ held entries k + n k)
      → (k : ℕ)
      → opens (forget_from i w path entries).1 k ≡ held (forget_from i w path entries).0 k + n k
  unfolding forget_from
  forget_from-Accounted w path [] n p a k = a k
  forget_from-Accounted w path (e ∷ entries) n p a k = elim (Bool-cases (same_path e.path path)) [
    | inl h ↦
        rw (h, forget_from)
          (forget_from-Accounted (close_entry i w e) path entries n p.1
            (close_entry-Accounted i opens base laws w e (λ k. held entries k + n k) p.0
              (λ k. omega (arith, a k)))
            k)
    | inr h ↦
        rw (h, forget_from)
          (let r =
              forget_from-Accounted w path entries (λ k. one e.handle k + n k) p.1
                (λ k. omega (arith, a k)) k in
            omega (arith, r))
  ]

  pub forget-IsCache :
      (c : OpenFileCache W) (path : FilePath)
      → IsCache i opens base c
      → IsCache i opens base (forget i c path)
  unfolding forget
  forget-IsCache c path v =
      let q = λ (e : Entry). not (same_path e.path path) in
      let e = forget_from-keep i c.files path c.entries in
      record {
        size_max = rw e (omega (arith, length-keep-le q c.entries, v.size_max));
        distinct = rw e (AreDistinct-keep q c.entries v.distinct);
        positive = rw e (All-keep (λ e. 0 < e.handle) q c.entries v.positive);
        accounted = forget_from-Accounted c.files path c.entries base v.positive v.accounted;
      }

  pub clear-IsCache :
      (c : OpenFileCache W) → IsCache i opens base c → IsCache i opens base (clear i c)
  unfolding clear
  clear-IsCache c v = record {
    size_max = omega arith;
    distinct = tt;
    positive = tt;
    accounted = λ k. omega (arith, close_all-Accounted c.files c.entries v.positive v.accounted k);
  }

  -- what `open_file` needs: the cache has no entry of the path
  abbrev IsFree : FilePath → OpenFileCache W → Type 0
  IsFree path c = All (IsAway path) c.entries

  prepared-Accounted :
      (w : W) (path : FilePath) (b : Bool) (k : ℕ)
      → opens (if b then i.create_parents w path else w) k ≡ opens w k
  prepared-Accounted w path true k = laws.at_parents w path k
  prepared-Accounted w path false k = refl

  open_file-IsCache :
      (c : OpenFileCache W) (path : FilePath) (b : Bool)
      → IsFree path c
      → IsCache i opens base c
      → IsCache i opens base (open_file i c path b).1
  unfolding open_file
  open_file-IsCache c path b f v =
      let w = if b then i.create_parents c.files path else c.files in
      let w' = (i.create_file w path b).1 in
      elim (Option-cases (i.create_file w path b).0) [
        | inl h ↦
            rw (h, open_file)
              record {
                size_max = v.size_max;
                distinct = v.distinct;
                positive = v.positive;
                accounted = λ k.
                    laws.at_failure w path b k h
                    ∙ prepared-Accounted c.files path b k
                    ∙ v.accounted k;
              }
        | inr (made, h) ↦
            let e : Entry = record { path = path; writable = b; handle = made } in
            let t = trim-take i maximum_handles w' (e ∷ c.entries) in
            let positive : All (λ (x : Entry). 0 < x.handle) (e ∷ c.entries) =
              ((laws.at_create w path b made 0 h).0, v.positive) in
            rw (h, open_file)
              record {
                size_max = rw t (omega (arith, length-take maximum_handles (e ∷ c.entries)));
                distinct = rw t (AreDistinct-take maximum_handles (e ∷ c.entries) (f, v.distinct));
                positive =
                    rw t (All-take (λ e. 0 < e.handle) maximum_handles (e ∷ c.entries) positive);
                accounted =
                    trim-Accounted i opens base laws maximum_handles w' (e ∷ c.entries) base
                      positive
                      (λ k. omega (
                        arith,
                        (laws.at_create w path b made k h).1,
                        prepared-Accounted c.files path b k,
                        v.accounted k,
                      ));
              }
      ]

  -- without one of its entries, the handle of which is closed
  closed-IsCache :
      (c : OpenFileCache W) (path : FilePath) (e : Entry) (others : List Entry)
      → Taken path c.entries e others
      → IsCache i opens base c
      → IsCache i opens base (record { entries = others; files = close_entry i c.files e })
  closed-IsCache c path e others t v =
      let (p, positive) = t.kept (λ e. 0 < e.handle) v.positive in
      record {
        size_max = omega (arith, v.size_max, t.shorter);
        distinct = (t.away v.distinct).0;
        positive = positive;
        accounted =
            close_entry-Accounted i opens base laws c.files e (λ k. held others k + base k) p
              (λ k. omega (arith, v.accounted k, t.counted k));
      }

  -- with one of its entries moved to the front
  moved-IsCache :
      (c : OpenFileCache W) (path : FilePath) (e : Entry) (others : List Entry)
      → Taken path c.entries e others
      → IsCache i opens base c
      → IsCache i opens base (record { entries = e ∷ others; files = c.files })
  moved-IsCache c path e others t v =
      let (d, a) = t.away v.distinct in
      record {
        size_max = omega (arith, v.size_max, t.shorter);
        distinct = (subst (λ p. All (IsAway p) others) (sym t.has_path) a, d);
        positive = t.kept (λ e. 0 < e.handle) v.positive;
        accounted = λ k. omega (arith, v.accounted k, t.counted k);
      }

  pub acquire-IsCache :
      (c : OpenFileCache W) (path : FilePath) (b : Bool)
      → IsCache i opens base c
      → IsCache i opens base (acquire i c path b).1
  unfolding acquire
  acquire-IsCache c path b v = elim (take_out_cases path c.entries) [
    | inl (h, a) ↦ rw (h, acquire) (open_file-IsCache c path b a v)
    | inr (e, others, h, t) ↦
        rw (h, acquire)
          (elim (Bool-cases (b && not e.writable)) [
            | inl g ↦ rw g (
                open_file-IsCache (record { entries = others; files = close_entry i c.files e })
                  path b (t.away v.distinct).1 (closed-IsCache c path e others t v))
            | inr g ↦ rw g (moved-IsCache c path e others t v)
          ])
  ]

  -- the cache is kept where only the state of the files changes, and no handle with it
  pub files-IsCache :
      (c : OpenFileCache W) (w : W)
      → ((k : ℕ) → opens w k ≡ opens c.files k)
      → IsCache i opens base c
      → IsCache i opens base (record c { files = w })
  files-IsCache c w e v = record {
    size_max = v.size_max;
    distinct = v.distinct;
    positive = v.positive;
    accounted = λ k. e k ∙ v.accounted k;
  }
