-- ===== src/Announce/Summary/Fields.antt =====
-- Each field reads back what was written to it, whatever follows.
use wgrd_mod_manager.Domain.FixedBytes.Hex.{length-to_hex, to_hex-injective}
use wgrd_mod_manager.Domain.FixedBytes.{to_hex}
use native.Mathlib.Nat.{pow-suc}
use wgrd_mod_manager.Common.{
  ℕ, zero, suc, ◌+◌, ◌-◌, ◌/◌, ◌^◌, ◌≤◌, ◌<◌, min, ◌≡◌, refl, sym, ap, ◌∙◌, true, false, [], ◌∷◌,
  ◌++◌, append_assoc, arith, length, take, drop, replicate, length-append, length-take,
  length-replicate, take-append, drop-append, take_all, Bytes, AreBytes,
}
use wgrd_mod_manager.Domain.Names.{is_mod_name_char, is_acceptable_mod_name}
use wgrd_mod_manager.Domain.Names.Charset.{Lacks, acceptable-Lacks, acceptable-length}
use wgrd_mod_manager.Announce.Summary.{
  fingerprint_bytes, mod_name_bytes, identifier_of, write_le, read_le, pad_mod_name, read_text,
}

pub length-write_le : (n v : ℕ) → length (write_le n v) ≡ n
unfolding write_le
length-write_le zero v = refl
length-write_le (suc n) v = ap suc (length-write_le n (v / 256))

pub read_le-write_le : (n v : ℕ) (rest : Bytes) → v < 256 ^ n → read_le n (write_le n v ++ rest) ≡ v
unfolding read_le write_le
read_le-write_le zero v rest h = omega arith
read_le-write_le (suc n) v rest h =
    omega (arith, pow-suc 256 n, read_le-write_le n (v / 256) rest (omega (arith, pow-suc 256 n)))

pub read_le-lt : (n : ℕ) (bs : Bytes) → AreBytes bs → read_le n bs < 256 ^ n
unfolding read_le
read_le-lt zero bs h = omega arith
read_le-lt (suc n) [] h = omega (arith, pow-suc 256 n, read_le-lt n [] tt)
read_le-lt (suc n) (b ∷ bs) h = omega (arith, pow-suc 256 n, read_le-lt n bs h.1)

pub length-pad_mod_name : (name : Bytes) → length (pad_mod_name name) ≡ mod_name_bytes
unfolding pad_mod_name
length-pad_mod_name name = omega (
  arith,
  length-append (take (min (length name) mod_name_bytes) name)
      (replicate (mod_name_bytes - min (length name) mod_name_bytes) 0),
  length-take (min (length name) mod_name_bytes) name,
  length-replicate {0} {A = ℕ} (mod_name_bytes - min (length name) mod_name_bytes) 0,
)

zero_rejected : is_mod_name_char 0 ≡ false
unfolding is_mod_name_char
zero_rejected = refl

-- A text with no zero, behind it zeros up to the width of the field, reads back.
read_text-replicate :
    (n k : ℕ) (name rest : Bytes)
    → length name + k ≡ n
    → Lacks 0 name
    → read_text n (name ++ (replicate k 0 ++ rest)) ≡ name
unfolding read_text
read_text-replicate zero k [] rest e h = refl
read_text-replicate zero k (c ∷ name) rest e h = absurd (omega arith)
read_text-replicate (suc n) zero [] rest e h = absurd (omega arith)
read_text-replicate (suc n) (suc k) [] rest e h = refl
read_text-replicate (suc n) k (c ∷ name) rest e h =
    ground (arith, read_text-replicate n k name rest, h.0)

pad_mod_name_short :
    (name : Bytes)
    → length name ≤ mod_name_bytes
    → pad_mod_name name ≡ name ++ replicate (mod_name_bytes - length name) 0
unfolding pad_mod_name
pad_mod_name_short name h =
    let e : min (length name) mod_name_bytes ≡ length name = omega arith in
    rw e (rw (take_all (length name) name (omega arith)))

pub read_text-pad_mod_name :
    (name rest : Bytes)
    → is_acceptable_mod_name name ≡ true
    → read_text mod_name_bytes (pad_mod_name name ++ rest) ≡ name
read_text-pad_mod_name name rest h =
    let short = (acceptable-length name h).1 in
    rw (pad_mod_name_short name short, append_assoc)
      (read_text-replicate mod_name_bytes (mod_name_bytes - length name) name rest (omega arith)
        (acceptable-Lacks 0 name zero_rejected h))

-- A text that is read is no longer than its field, and what it reads are bytes of the field.
length-read_text-le : (n : ℕ) (bs : Bytes) → length (read_text n bs) ≤ n
unfolding read_text
length-read_text-le zero bs = omega arith
length-read_text-le (suc n) [] = omega arith
length-read_text-le (suc n) (b ∷ bs) = ground (arith, length-read_text-le n bs)

-- A publisher of eight bytes and a name are determined by their identifier.
pub identifier_of-injective :
    (p q n m : Bytes)
    → length p ≡ fingerprint_bytes
    → length q ≡ fingerprint_bytes
    → AreBytes p
    → AreBytes q
    → identifier_of p n ≡ identifier_of q m
    → (p ≡ q) × (n ≡ m)
unfolding identifier_of
identifier_of-injective p q n m lp lq bp bq e =
    let hp : length (to_hex p) ≡ 16 = omega (arith, length-to_hex p) in
    let hq : length (to_hex q) ≡ 16 = omega (arith, length-to_hex q) in
    let heads =
      sym (take-append 16 (to_hex p) (b'/' ∷ n) hp)
      ∙ ap (take 16) e
      ∙ take-append 16 (to_hex q) (b'/' ∷ m) hq in
    let tails =
      sym (drop-append 16 (to_hex p) (b'/' ∷ n) hp)
      ∙ ap (drop 16) e
      ∙ drop-append 16 (to_hex q) (b'/' ∷ m) hq in
    (to_hex-injective p q bp bq heads, ap (drop 1) tails)
