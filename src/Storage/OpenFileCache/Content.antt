-- ===== src/Storage/OpenFileCache/Content.antt =====
-- What `Read` gets and what `Write` leaves, however Windows parts the transfers.

use wgrd_mod_manager.Common.{
  ℕ, zero, suc, ◌+◌, ◌-◌, ◌≤◌, ◌<◌, ◌≡◌, refl, ap, ap₂, ◌∙◌, ◌&&◌, [], ◌∷◌, ◌++◌, arith, ltb, leb,
  if◌then◌else◌, lt→ltb, le→leb, length, get_or, Bytes,
}

-- the octets at some positions, in order
abbrev pub slice : (ℕ → ℕ) → ℕ → ℕ → Bytes
slice f at zero = []
slice f at (suc n) = f at ∷ slice f (suc at) n

-- the octets with others put in at a position
abbrev pub patched : (ℕ → ℕ) → ℕ → Bytes → ℕ → ℕ
patched f at bytes k =
    if leb at k && ltb k (at + length bytes) then get_or bytes (k - at) 0 else f k

length-slice : (f : ℕ → ℕ) (at n : ℕ) → length (slice f at n) ≡ n
length-slice f at zero = refl
length-slice f at (suc n) = ap suc (length-slice f (suc at) n)

pub slice-append :
    (f : ℕ → ℕ) (at m n : ℕ) → slice f at m ++ slice f (at + m) n ≡ slice f at (m + n)
slice-append f at zero n = ap (λ a. slice f a n) (omega arith) ∙ ap (slice f at) (omega arith)
slice-append f at (suc m) n =
    ap (◌∷◌ (f at))
      (ap (λ a. slice f (suc at) m ++ slice f a n) (omega arith) ∙ slice-append f (suc at) m n)
    ∙ ap (slice f at) (suc-add m n)
  where
    suc-add : (m n : ℕ) → suc (m + n) ≡ suc m + n
    suc-add m n = omega arith

pub slice-agrees :
    (f g : ℕ → ℕ) (at n : ℕ)
    → ((k : ℕ) → at ≤ k → k < at + n → f k ≡ g k)
    → slice f at n ≡ slice g at n
slice-agrees f g at zero h = refl
slice-agrees f g at (suc n) h =
    ap₂ (◌∷◌) (h at (omega arith) (omega arith))
      (slice-agrees f g (suc at) n (λ k l m. h k (omega (arith, l)) (omega (arith, m))))

slice-get_or :
    (f : ℕ → ℕ) (bytes : Bytes) (at : ℕ)
    → ((k : ℕ) → k < length bytes → f (at + k) ≡ get_or bytes k 0)
    → slice f at (length bytes) ≡ bytes
slice-get_or f [] at h = refl
slice-get_or f (b ∷ bytes) at h =
    ap₂ (◌∷◌) (ap f (omega arith) ∙ h 0 (omega arith))
      (slice-get_or f bytes (suc at) (λ k l. ap f (omega arith) ∙ h (suc k) (omega (arith, l))))

pub slice-patched :
    (f : ℕ → ℕ) (at : ℕ) (bytes : Bytes) → slice (patched f at bytes) at (length bytes) ≡ bytes
slice-patched f at bytes = slice-get_or (patched f at bytes) bytes at (λ k l. inside k l)
  where
    inside : (k : ℕ) → k < length bytes → patched f at bytes (at + k) ≡ get_or bytes k 0
    inside k l =
        let e : (at + k) - at ≡ k = omega arith in
        rw (le→leb at (at + k) (omega arith)) (
          rw (lt→ltb (at + k) (at + length bytes) (omega (arith, l)))
            (ap (λ j. get_or bytes j 0) e))
