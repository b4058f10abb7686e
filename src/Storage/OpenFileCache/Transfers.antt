-- ===== src/Storage/OpenFileCache/Transfers.antt =====
-- Reading back what was written.

use wgrd_mod_manager.Storage.OpenFileCache.Content.{slice, patched, slice-append, slice-agrees}
use wgrd_mod_manager.Storage.OpenFileCache.{IFiles, read_from, write_from}
use wgrd_mod_manager.Common.{
  ℕ, zero, suc, ◌+◌, ◌-◌, ◌%◌, ◌^◌, ◌≤◌, ◌<◌, ◌≡◌, refl, sym, ap, ap₂, subst, ◌∙◌, inl, inr, true,
  false, ◌&&◌, none, some, [], ◌∷◌, ◌++◌, arith, ltb, leb, ◌==◌, if◌then◌else◌, Bool-cases,
  Option-cases, some-injective, length, get_or, take, drop, length-take, length-drop, take_all,
  Bytes,
}

-- The octets behind a handle, as Windows documents its calls: a read that does not fail gets those
-- that stand there, not more than it asked for; a write puts in the first of its bytes, as many as
-- it says.
pub record Transfers {W : Type 0} (i : IFiles W) (octet : W → ℕ → ℕ → ℕ) : Type 0 where
  pub at_read :
      (w : W) (h at n : ℕ) (bytes : Bytes)
      → (i.read_file w h at n).0 ≡ some bytes
      → (length bytes ≤ n)
        × (bytes ≡ slice (octet w h) at (length bytes))
        × ((k : ℕ) → octet (i.read_file w h at n).1 h k ≡ octet w h k)
  pub at_write :
      (w : W) (h at : ℕ) (bytes : Bytes) (n : ℕ)
      → (i.write_file w h at bytes).0 ≡ some n
      → (n ≤ length bytes)
        × ((k : ℕ)
            → octet (i.write_file w h at bytes).1 h k ≡ patched (octet w h) at (take n bytes) k)

get_or-take : (n : ℕ) (xs : Bytes) (k : ℕ) → k < n → get_or (take n xs) k 0 ≡ get_or xs k 0
get_or-take zero xs k h = absurd (omega arith)
get_or-take (suc n) [] k h = refl
get_or-take (suc n) (x ∷ xs) zero h = refl
get_or-take (suc n) (x ∷ xs) (suc k) h = get_or-take n xs k (omega arith)

get_or-drop : (n : ℕ) (xs : Bytes) (k : ℕ) → get_or (drop n xs) k 0 ≡ get_or xs (n + k) 0
get_or-drop zero xs k = ap (λ j. get_or xs j 0) (omega arith)
get_or-drop (suc n) [] k = refl
get_or-drop (suc n) (x ∷ xs) k = get_or-drop n xs k ∙ ap (λ j. get_or (x ∷ xs) j 0) (suc-add n k)
  where
    suc-add : (n k : ℕ) → suc (n + k) ≡ suc n + k
    suc-add n k = omega arith

patched-agrees :
    (f g : ℕ → ℕ) (at : ℕ) (bytes : Bytes) (k : ℕ)
    → f k ≡ g k
    → patched f at bytes k ≡ patched g at bytes k
patched-agrees f g at bytes k h =
    ap (λ v. if leb at k && ltb k (at + length bytes) then get_or bytes (k - at) 0 else v) h

get_or-drop_at : (n : ℕ) (xs : Bytes) (k j : ℕ) → n + k ≡ j → get_or (drop n xs) k 0 ≡ get_or xs j 0
get_or-drop_at n xs k j e = get_or-drop n xs k ∙ ap (λ j. get_or xs j 0) e

patched-patched :
    (f : ℕ → ℕ) (at n : ℕ) (bytes : Bytes) (k : ℕ)
    → n ≤ length bytes
    → patched (patched f at (take n bytes)) (at + n) (drop n bytes) k ≡ patched f at bytes k
patched-patched f at n bytes k h = ground (
  arith,
  length-take n bytes,
  length-drop n bytes,
  get_or-take n bytes (k - at),
  get_or-drop_at n bytes (k - (at + n)) (k - at),
)

module _ {W : Type 0} (i : IFiles W) (octet : W → ℕ → ℕ → ℕ) (laws : Transfers i octet) where
  pub read_from-slice :
      (fuel : ℕ) (w : W) (h at left : ℕ) (bytes : Bytes)
      → left < 2 ^ 32
      → at + left < 2 ^ 64
      → (read_from i fuel w h at left).0 ≡ some bytes
      → bytes ≡ slice (octet w h) at left
  unfolding read_from
  read_from-slice zero w h at zero bytes l m e = sym (some-injective e)
  read_from-slice zero w h at (suc left) bytes l m e = absurd (ground (arith, e))
  read_from-slice (suc fuel) w h at zero bytes l m e = sym (some-injective e)
  read_from-slice (suc fuel) w h at (suc left) bytes l m e =
      let n = suc left in
      let o = i.read_file w h (at % 2 ^ 64) (n % 2 ^ 32) in
      let there : at % 2 ^ 64 ≡ at = omega (arith, m) in
      let asked : n % 2 ^ 32 ≡ n = omega (arith, l) in
      let turns : (n == 0) ≡ false = ground arith in
      elim (Option-cases o.0) [
        | inl g ↦
            let q : (read_from i (suc fuel) w h at n).0 ≡ none =
              rw (turns, read_from) (rw g refl) in
            absurd (failed (sym q ∙ e))
        | inr ([], g) ↦
            let q : (read_from i (suc fuel) w h at n).0 ≡ none =
              rw (turns, read_from) (rw g refl) in
            absurd (failed (sym q ∙ e))
        | inr (b ∷ got, g) ↦
            let d = length (b ∷ got) in
            let (fits, is_slice, kept) = laws.at_read w h (at % 2 ^ 64) (n % 2 ^ 32) (b ∷ got) g in
            elim (Option-cases (read_from i fuel o.1 h (at + d) (n - d)).0) [
              | inl f ↦
                  let q : (read_from i (suc fuel) w h at n).0 ≡ none =
                    rw (turns, read_from) (rw g (rw f refl)) in
                  absurd (failed (sym q ∙ e))
              | inr (more, f) ↦
                  let q : (read_from i (suc fuel) w h at n).0 ≡ some ((b ∷ got) ++ more) =
                    rw (turns, read_from) (rw g (rw f refl)) in
                  let r =
                    read_from-slice fuel o.1 h (at + d) (n - d) more (omega (arith, l))
                      (omega (arith, m, fits, asked)) f in
                  let total : d + (n - d) ≡ n = omega (arith, fits, asked) in
                  some-injective (sym e ∙ q)
                  ∙ ap₂ (◌++◌) (is_slice ∙ ap (λ a. slice (octet w h) a d) there) (
                      r ∙ slice-agrees (octet o.1 h) (octet w h) (at + d) (n - d) (λ k p q. kept k))
                  ∙ slice-append (octet w h) at d (n - d)
                  ∙ ap (slice (octet w h) at) total
            ]
      ]
    where
      failed : none ≡ some bytes → ⊥
      failed e = cc

  pub write_from-patched :
      (fuel : ℕ) (w : W) (h at : ℕ) (bytes : Bytes)
      → length bytes < 2 ^ 32
      → at + length bytes < 2 ^ 64
      → (write_from i fuel w h at bytes).0 ≡ true
      → (k : ℕ) → octet (write_from i fuel w h at bytes).1 h k ≡ patched (octet w h) at bytes k
  unfolding write_from
  write_from-patched zero w h at bytes l m e k = ground arith
  write_from-patched (suc fuel) w h at bytes l m e k =
      let part = take (length bytes % 2 ^ 32) bytes in
      let o = (i.write_file w h (at % 2 ^ 64) part).0 in
      let w' = (i.write_file w h (at % 2 ^ 64) part).1 in
      let whole : part ≡ bytes = take_all (length bytes % 2 ^ 32) bytes (omega (arith, l)) in
      let there : at % 2 ^ 64 ≡ at = omega (arith, m) in
      elim (Bool-cases (length bytes == 0)) [
        | inl f ↦ rw (f, write_from) (ground arith)
        | inr f ↦ elim (Option-cases o) [
          | inl g ↦ ground arith
          | inr (zero, g) ↦ ground arith
          | inr (suc n, g) ↦
              let q : write_from i (suc fuel) w h at bytes
                  ≡ write_from i fuel w' h (at + suc n) (drop (suc n) bytes) =
                rw (f, write_from) (rw g refl) in
              let (fits, put) = laws.at_write w h (at % 2 ^ 64) part (suc n) g in
              let fits' : suc n ≤ length bytes = subst (λ b. suc n ≤ length b) whole fits in
              let r =
                write_from-patched fuel w' h (at + suc n) (drop (suc n) bytes)
                  (omega (arith, length-drop (suc n) bytes, l))
                  (omega (arith, length-drop (suc n) bytes, fits', m)) (sym (ap (λ r. r.0) q) ∙ e)
                  k in
              ap (λ r. octet r.1 h k) q
              ∙ r
              ∙ patched-agrees (octet w' h) (patched (octet w h) at (take (suc n) bytes))
                  (at + suc n) (drop (suc n) bytes) k
                  (put k ∙ ap₂ (λ a b. patched (octet w h) a (take (suc n) b) k) there whole)
              ∙ patched-patched (octet w h) at (suc n) bytes k fits'
        ]
      ]
