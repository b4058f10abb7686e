-- ===== src/Storage/OpenFileCache/Opens.antt =====
-- Reading and writing open and close nothing.
use wgrd_mod_manager.Common.{
  ℕ, zero, suc, ◌+◌, ◌-◌, ◌%◌, ◌^◌, ◌≡◌, refl, ◌∙◌, inl, inr, [], ◌∷◌, ◌==◌, Bool-cases,
  Option-cases, length, take, drop, Bytes,
}
use wgrd_mod_manager.Storage.OpenFileCache.{IFiles, read_from, write_from}
use wgrd_mod_manager.Storage.OpenFileCache.Bounds.{Counts}

module _ {W : Type 0} (i : IFiles W) (opens : W → ℕ → ℕ) (laws : Counts i opens) where
  pub read_from-opens :
      (fuel : ℕ) (w : W) (h at left k : ℕ) → opens (read_from i fuel w h at left).1 k ≡ opens w k
  unfolding read_from
  read_from-opens zero w h at left k = refl
  read_from-opens (suc fuel) w h at left k =
      let w' = (i.read_file w h (at % 2 ^ 64) (left % 2 ^ 32)).1 in
      let r = laws.at_read w h (at % 2 ^ 64) (left % 2 ^ 32) k in
      elim (Bool-cases (left == 0)) [
        | inl e ↦ rw (e, read_from) refl
        | inr e ↦
            rw (e, read_from)
              (elim (Option-cases (i.read_file w h (at % 2 ^ 64) (left % 2 ^ 32)).0) [
                | inl f ↦ rw f r
                | inr ([], f) ↦ rw f r
                | inr (b ∷ bytes, f) ↦
                    let n = length (b ∷ bytes) in
                    rw f (elim (Option-cases (read_from i fuel w' h (at + n) (left - n)).0) [
                      | inl g ↦ rw g (read_from-opens fuel w' h (at + n) (left - n) k ∙ r)
                      | inr (more, g) ↦ rw g (read_from-opens fuel w' h (at + n) (left - n) k ∙ r)
                    ])
              ])
      ]

  pub write_from-opens :
      (fuel : ℕ) (w : W) (h at : ℕ) (bytes : Bytes) (k : ℕ)
      → opens (write_from i fuel w h at bytes).1 k ≡ opens w k
  unfolding write_from
  write_from-opens zero w h at bytes k = refl
  write_from-opens (suc fuel) w h at bytes k =
      let part = take (length bytes % 2 ^ 32) bytes in
      let w' = (i.write_file w h (at % 2 ^ 64) part).1 in
      let r = laws.at_write w h (at % 2 ^ 64) part k in
      elim (Bool-cases (length bytes == 0)) [
        | inl e ↦ rw (e, write_from) refl
        | inr e ↦
            rw (e, write_from)
              (elim (Option-cases (i.write_file w h (at % 2 ^ 64) part).0) [
                | inl f ↦ rw f r
                | inr (zero, f) ↦ rw f r
                | inr (suc n, f) ↦
                    rw f (write_from-opens fuel w' h (at + suc n) (drop (suc n) bytes) k ∙ r)
              ])
      ]
