-- ===== src/Domain/FixedBytes/Hex.antt =====
-- The hexadecimal form determines the bytes, and `FromHex` reads it back.
use wgrd_mod_manager.Common.{
  ℕ, zero, suc, ◌+◌, ◌*◌, ◌/◌, ◌%◌, ◌<◌, ◌≡◌, refl, ap, subst, inl, inr, Bool, true, false, ◌&&◌,
  [], ◌∷◌, arith, ◌==◌, length, get_or, Bytes, AreBytes, ok, err, Result-cases,
}
use wgrd_mod_manager.Domain.FixedBytes.{hex_digits, to_hex, decode_nibble, decode_pairs, from_hex}

-- the digit stands for the nibble
reads : ℕ → ℕ → Bool
reads digit n = elim (decode_nibble digit) [ ok m ↦ m == n | err e ↦ false ]

-- the digits stand for the nibbles from one on
read_from : ℕ → Bytes → Bool
read_from n [] = true
read_from n (digit ∷ digits) = reads digit n && read_from (suc n) digits

reads-get_or :
    (n i : ℕ) (digits : Bytes)
    → read_from n digits ≡ true
    → i < length digits
    → reads (get_or digits i 0) (n + i) ≡ true
unfolding read_from
reads-get_or n i [] h lt = absurd (omega arith)
reads-get_or n zero (digit ∷ digits) h lt = ground arith
reads-get_or n (suc i) (digit ∷ digits) h lt = ground (arith, reads-get_or (suc n) i digits)

hex_digits-read : read_from 0 hex_digits ≡ true
unfolding read_from reads decode_nibble
hex_digits-read = refl

reads-decode_nibble : (digit n : ℕ) → reads digit n ≡ true → decode_nibble digit ≡ ok n
unfolding reads
reads-decode_nibble digit n h = elim (Result-cases (decode_nibble digit)) [
  | inl (m, e) ↦ ground (arith, e)
  | inr (x, e) ↦ ground (arith, e)
]

decode_nibble-hex_digits : (n : ℕ) → n < 16 → decode_nibble (get_or hex_digits n 0) ≡ ok n
decode_nibble-hex_digits n h = reads-decode_nibble (get_or hex_digits n 0) n (
    subst (λ k. reads (get_or hex_digits n 0) k ≡ true) (omega arith)
      (reads-get_or 0 n hex_digits hex_digits-read h))

pub length-to_hex : (bs : Bytes) → length (to_hex bs) ≡ length bs * 2
unfolding to_hex
length-to_hex [] = omega arith
length-to_hex (b ∷ bs) = omega (arith, length-to_hex bs)

decode_pairs-to_hex : (bs : Bytes) → AreBytes bs → decode_pairs (to_hex bs) ≡ ok bs
unfolding decode_pairs to_hex
decode_pairs-to_hex [] h = refl
decode_pairs-to_hex (b ∷ bs) h = rw (decode_nibble-hex_digits (b / 16) (omega (arith, h.0))) (
    rw (decode_nibble-hex_digits (b % 16) (omega arith))
      (rw (decode_pairs-to_hex bs h.1) (ap (λ c. ok (c ∷ bs)) (omega arith))))

-- `FromHex` reads back what `ToHex` writes of octets, at every length.
from_hex-to_hex :
    (n : ℕ) (bs : Bytes) → length bs ≡ n → AreBytes bs → from_hex n (to_hex bs) ≡ ok bs
unfolding from_hex
from_hex-to_hex n bs e h = ground (arith, length-to_hex bs, decode_pairs-to_hex bs h)

-- So two strings of octets with one hexadecimal form are equal.
pub to_hex-injective : (a b : Bytes) → AreBytes a → AreBytes b → to_hex a ≡ to_hex b → a ≡ b
to_hex-injective a b ha hb e = cc (decode_pairs-to_hex a ha, decode_pairs-to_hex b hb, e)
