-- ===== src/Storage/ChunkRangeIo/Got.antt =====
-- What a read that succeeds stores.
use wgrd_mod_manager.Storage.ChunkRangeIo.{
  StorageRole, seed_read, fetch_write, ReadOutcome, success, absent, fault, FileSlice, IFileStorage,
  IRanges, cache_ranges, ReadEnd, source_of, read_slices, read_block,
}
use wgrd_mod_manager.Storage.Paths.{FilePath}
use wgrd_mod_manager.Storage.OpenFileCache.Transfers.{Transfers}
use wgrd_mod_manager.Storage.OpenFileCache.{IFiles, acquire, read_from, read}
use wgrd_mod_manager.Storage.ChunkLocator.{ChunkLocator}
use wgrd_mod_manager.Common.{
  ℕ, zero, suc, ◌+◌, ◌-◌, ◌%◌, ◌^◌, ◌≤◌, ◌≡◌, refl, sym, ap, ◌∙◌, ◌≢◌, inl, inr, false, none, some,
  List, [], ◌∷◌, ◌++◌, arith, ◌==◌, ==_iff, Bool-cases, Option-cases, some-injective, length,
  replicate, length-append, length-replicate, Bytes,
}
use wgrd_mod_manager.Storage.OpenFileCache.Content.{slice}

-- a range that is read has as many bytes as were asked for
abbrev pub IsExact : {S : Type 0} → IRanges S → Type 0
IsExact {S = S} r =
    (s : S) (file : FilePath) (offset size : ℕ) (bytes : Bytes)
    → (r.read_range s file offset size).0 ≡ some bytes
    → length bytes ≡ size

module _ {W : Type 0} (i : IFiles W) (octet : W → ℕ → ℕ → ℕ) (laws : Transfers i octet) where
  length-read_from :
      (fuel : ℕ) (w : W) (h at left : ℕ) (bytes : Bytes)
      → (read_from i fuel w h at left).0 ≡ some bytes
      → length bytes ≡ left
  unfolding read_from
  length-read_from fuel w h at zero bytes e = no_bytes fuel e
    where
      no_bytes : (fuel : ℕ) → (read_from i fuel w h at 0).0 ≡ some bytes → length bytes ≡ 0
      no_bytes zero e = ap length (sym (some-injective e))
      no_bytes (suc fuel) e = ap length (sym (some-injective e))
  length-read_from zero w h at (suc left) bytes e = absurd (ground (arith, e))
  length-read_from (suc fuel) w h at (suc left) bytes e =
      let n = suc left in
      let o = i.read_file w h (at % 2 ^ 64) (n % 2 ^ 32) in
      let turns : (n == 0) ≡ false = ground arith in
      elim (Option-cases o.0) [
        | inl g ↦
            let q : (read_from i (suc fuel) w h at n).0 ≡ none =
              rw (turns, read_from) (rw g refl) in
            absurd (failed (sym q ∙ e))
        | inr ([], g) ↦
            let q : (read_from i (suc fuel) w h at n).0 ≡ none =
              rw (turns, read_from) (rw g refl) in
            absurd (failed (sym q ∙ e))
        | inr (b ∷ got, g) ↦
            let d = length (b ∷ got) in
            let (fits, _, _) = laws.at_read w h (at % 2 ^ 64) (n % 2 ^ 32) (b ∷ got) g in
            let shorter : n % 2 ^ 32 ≤ n = omega arith in
            elim (Option-cases (read_from i fuel o.1 h (at + d) (n - d)).0) [
              | inl f ↦
                  let q : (read_from i (suc fuel) w h at n).0 ≡ none =
                    rw (turns, read_from) (rw g (rw f refl)) in
                  absurd (failed (sym q ∙ e))
              | inr (more, f) ↦
                  let q : (read_from i (suc fuel) w h at n).0 ≡ some ((b ∷ got) ++ more) =
                    rw (turns, read_from) (rw g (rw f refl)) in
                  let r = length-read_from fuel o.1 h (at + d) (n - d) more f in
                  let total : d + length more ≡ n = omega (arith, fits, shorter, r) in
                  ap length (some-injective (sym e ∙ q)) ∙ length-append (b ∷ got) more ∙ total
            ]
      ]
    where
      failed : none ≡ some bytes → ⊥
      failed e = cc

  -- the files that the cache opens are read in full, or the read fails
  cache_ranges-IsExact : IsExact (cache_ranges i)
  unfolding read
  cache_ranges-IsExact c file offset size bytes e =
      let c' = (acquire i c file false).1 in
      elim (Option-cases (acquire i c file false).0) [
        | inl f ↦ absurd (failed (sym (rw (f, read) refl) ∙ e))
        | inr (h, f) ↦
            let q : (read i c file offset size).0 ≡ (read_from i size c'.files h offset size).0 =
              rw (f, read) refl in
            length-read_from size c'.files h offset size bytes (sym q ∙ e)
      ]
    where
      failed : none ≡ some bytes → ⊥
      failed e = cc

module _ (join : FilePath → Bytes → FilePath) (l : ChunkLocator) (save_path : FilePath) {S : Type 0}
    (r : IRanges S) (files : IFileStorage) (exact : IsExact r) where
  -- if the end is a success, all bytes are there
  abbrev IsSized : ℕ → ReadEnd S → Type 0
  IsSized size x = x.outcome ≡ success → length x.target ≡ size

  role_fails :
      (role : StorageRole)
      → elim role as (λ x. ReadOutcome) [ fetch_write ↦ absent | seed_read ↦ fault ] ≢ success
  role_fails fetch_write e = cc
  role_fails seed_read e = cc

  read_slices-IsSized :
      (role : StorageRole) (s : S) (size written : ℕ) (target : Bytes) (failed : ℕ)
      (slices : List FileSlice)
      → length target ≡ written
      → IsSized size (read_slices join l save_path r files role s size written target failed slices)
  unfolding read_slices
  read_slices-IsSized role s size written target failed [] h = elim (Bool-cases (written == size)) [
    | inl g ↦ λ e. h ∙ (==_iff written size).0 g
    | inr g ↦ rw (g, read_slices) (λ e. absurd (fails e))
  ]
    where
      fails : fault ≡ success → ⊥
      fails e = cc
  read_slices-IsSized role s size written target failed (slice ∷ slices) h =
      let index = slice.file_index in
      let next = written + slice.size in
      elim (Bool-cases (files.pad_file_at index)) [
        | inl p ↦
            let zeros : Bytes = replicate slice.size 0 in
            let count : length zeros ≡ slice.size = length-replicate slice.size 0 in
            rw (p, read_slices)
              (read_slices-IsSized role s size next (target ++ zeros) failed slices
                (omega (arith, length-append target zeros, count, h)))
        | inr p ↦
            elim (Option-cases (source_of join l save_path role (files.file_path index) slice)) [
              | inl q ↦ rw (p, read_slices) (rw q (λ e. absurd (fails e)))
              | inr ((file, offset), q) ↦
                  let s' = (r.read_range s file offset slice.size).1 in
                  elim (Option-cases (r.read_range s file offset slice.size).0) [
                    | inl g ↦ rw (p, read_slices) (rw q (rw g (λ e. absurd (role_fails role e))))
                    | inr (bytes, g) ↦
                        rw (p, read_slices)
                          (rw q (
                            rw g (
                              read_slices-IsSized role s' size next (target ++ bytes) index slices (
                                omega (
                                  arith,
                                  length-append target bytes,
                                  exact s file offset slice.size bytes g,
                                  h,
                                )))))
                  ]
            ]
      ]
    where
      fails : fault ≡ success → ⊥
      fails e = cc

  -- Where reading a range gets all of its bytes or fails, a `Read` of a block that succeeds has stored
  -- as many bytes as were asked for, padding included.
  pub read_block-success :
      (role : StorageRole) (s : S) (piece offset size failed : ℕ)
      → (read_block join l save_path r files role s piece offset size failed).outcome ≡ success
      → length (read_block join l save_path r files role s piece offset size failed).target ≡ size
  unfolding read_block
  read_block-success role s piece offset size failed =
      read_slices-IsSized role s size 0 [] failed (files.map_block piece offset size) refl
