-- ===== src/Storage/OpenFileCache/Invariant.antt =====
-- Any sequence of calls keeps the cache in bounds and leaks no handle.

use wgrd_mod_manager.Storage.OpenFileCache.Opens.{read_from-opens, write_from-opens}
use wgrd_mod_manager.Storage.OpenFileCache.Keeps.{
  forget-IsCache, clear-IsCache, acquire-IsCache, files-IsCache,
}
use wgrd_mod_manager.Common.{
  ℕ, ◌+◌, ◌≡◌, inl, inr, true, false, List, [], ◌∷◌, arith, Option-cases, length, Bytes,
}
use wgrd_mod_manager.Storage.Paths.{FilePath}
use wgrd_mod_manager.Storage.OpenFileCache.{
  IFiles, OpenFileCache, acquire, read_from, write_from, read, write, forget, clear,
}
use wgrd_mod_manager.Storage.OpenFileCache.Bounds.{Counts, IsCache}

-- The calls of the class.
pub data Call : Type 0 where
  reads : FilePath → ℕ → ℕ → Call
  writes : FilePath → ℕ → Bytes → Call
  forgets : FilePath → Call
  clears : Call

module _ {W : Type 0} (i : IFiles W) where
  unfoldable pub step : OpenFileCache W → Call → OpenFileCache W
  step c (reads source offset size) = (read i c source offset size).1
  step c (writes target offset bytes) = (write i c target offset bytes).1
  step c (forgets path) = forget i c path
  step c clears = clear i c

  unfoldable pub run : OpenFileCache W → List Call → OpenFileCache W
  run c [] = c
  run c (k ∷ calls) = run (step c k) calls

module _ {W : Type 0} (i : IFiles W) (opens : W → ℕ → ℕ) (base : ℕ → ℕ)
    (laws : Counts i opens) where
  step-IsCache :
      (c : OpenFileCache W) (call : Call)
      → IsCache i opens base c
      → IsCache i opens base (step i c call)
  unfolding step read write
  step-IsCache c (reads source offset size) v =
      let c' = (acquire i c source false).1 in
      let v' = acquire-IsCache i opens base laws c source false v in
      elim (Option-cases (acquire i c source false).0) [
        | inl e ↦ rw (e, step) v'
        | inr (h, e) ↦
            rw (e, step)
              (files-IsCache i opens base laws c' (read_from i size c'.files h offset size).1
                (read_from-opens i opens laws size c'.files h offset size) v')
      ]
  step-IsCache c (writes target offset bytes) v =
      let c' = (acquire i c target true).1 in
      let v' = acquire-IsCache i opens base laws c target true v in
      elim (Option-cases (acquire i c target true).0) [
        | inl e ↦ rw (e, step) v'
        | inr (h, e) ↦
            rw (e, step)
              (files-IsCache i opens base laws c'
                (write_from i (length bytes) c'.files h offset bytes).1
                (write_from-opens i opens laws (length bytes) c'.files h offset bytes) v')
      ]
  step-IsCache c (forgets path) v = forget-IsCache i opens base laws c path v
  step-IsCache c clears v = clear-IsCache i opens base laws c v

  -- Where Windows counts open handles as documented, every sequence of calls keeps the cache in
  -- bounds: at most 8 entries, no path twice, and the handles open are those that were open before
  -- the cache and those of its entries, each once.
  pub run-IsCache :
      (c : OpenFileCache W) (calls : List Call)
      → IsCache i opens base c
      → IsCache i opens base (run i c calls)
  unfolding run
  run-IsCache c [] v = v
  run-IsCache c (k ∷ calls) v = run-IsCache (step i c k) calls (step-IsCache c k v)

  -- Whatever was read, written and forgotten, `Clear`, which the destructor calls, leaves open just
  -- the handles that were open before the cache was made.
  pub clear-run :
      (w : W) (calls : List Call)
      → ((k : ℕ) → opens w k ≡ base k)
      → (k : ℕ)
      → opens (clear i (run i (record { entries = []; files = w }) calls)).files k ≡ base k
  unfolding clear
  clear-run w calls a k =
      let c : OpenFileCache W = record { entries = []; files = w } in
      let v : IsCache i opens base c = record {
        size_max = omega arith;
        distinct = tt;
        positive = tt;
        accounted = λ k. omega (arith, a k);
      } in
      let r : opens (clear i (run i c calls)).files k ≡ 0 + base k =
        (clear-IsCache i opens base laws (run i c calls) (run-IsCache c calls v)).accounted k in
      omega (arith, r)
