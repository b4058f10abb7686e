-- ===== src/Common/Text.antt =====
-- Byte strings (`std::string`, `std::vector<std::uint8_t>`): lists of numbers, compared as
-- `std::string` compares them, byte by byte and unsigned.
use Prim.Native.Char.{code}
use Prim.Native.Nat.{ℕ, ◌<◌, compare, Ordering}
use Prim.Native.String.{String}
use mathlib.Core.Bool.{Bool, true, false, ◌&&◌}
use mathlib.Core.List.{List, [], ◌∷◌}
use mathlib.Core.Logic.{◌↔◌}
use mathlib.Core.Path.{◌≡◌, refl}
use native.Mathlib.Omega.{arith}
use wgrd_mod_manager.Common.Tests.{◌==◌}
use wgrd_mod_manager.Common.Lists.{All}

abbrev pub Bytes : Type 0
Bytes = List ℕ

-- The bytes of a text, all of them below 128 in this development.
abbrev pub codes : String → Bytes
codes String.[] = []
codes (String.◌∷◌ c s) = code c ∷ codes s

-- every number is a byte
abbrev pub AreBytes : Bytes → Type 0
AreBytes = All (λ c. c < 256)

-- `std::string::operator==`
unfoldable pub same : Bytes → Bytes → Bool
same [] [] = true
same [] (y ∷ ys) = false
same (x ∷ xs) [] = false
same (x ∷ xs) (y ∷ ys) = x == y && same xs ys

pub same_iff : (a b : Bytes) → (same a b ≡ true) ↔ (a ≡ b)
unfolding same
same_iff [] [] = ground arith
same_iff [] (y ∷ b) = ground arith
same_iff (x ∷ a) [] = ground arith
same_iff (x ∷ a) (y ∷ b) = ground (arith, same_iff a b)

pub same_refl : (a : Bytes) → same a a ≡ true
same_refl a = (same_iff a a).1 refl

-- `std::string::compare`: the order of the keys of a `std::map<std::string, _>`
unfoldable pub lex : Bytes → Bytes → Ordering
lex [] [] = Ordering.eq
lex [] (y ∷ ys) = Ordering.lt
lex (x ∷ xs) [] = Ordering.gt
lex (x ∷ xs) (y ∷ ys) = elim (compare x y) [
  | Ordering.lt ↦ Ordering.lt
  | Ordering.eq ↦ lex xs ys
  | Ordering.gt ↦ Ordering.gt
]

pub lex_eq : (a b : Bytes) → (lex a b ≡ Ordering.eq) ↔ (a ≡ b)
unfolding lex
lex_eq [] [] = ground arith
lex_eq [] (y ∷ b) = ground arith
lex_eq (x ∷ a) [] = ground arith
lex_eq (x ∷ a) (y ∷ b) = ground (arith, lex_eq a b)

pub lex_trans :
    (a b c : Bytes) → lex a b ≡ Ordering.lt → lex b c ≡ Ordering.lt → lex a c ≡ Ordering.lt
unfolding lex
lex_trans [] [] c h k = ground arith
lex_trans [] (y ∷ b) [] h k = ground arith
lex_trans [] (y ∷ b) (z ∷ c) h k = refl
lex_trans (x ∷ a) [] c h k = ground arith
lex_trans (x ∷ a) (y ∷ b) [] h k = ground arith
lex_trans (x ∷ a) (y ∷ b) (z ∷ c) h k = ground (arith, lex_trans a b c)

pub lex_swap : (a b : Bytes) → lex a b ≡ Ordering.gt → lex b a ≡ Ordering.lt
unfolding lex
lex_swap [] [] h = ground arith
lex_swap [] (y ∷ b) h = ground arith
lex_swap (x ∷ a) [] h = refl
lex_swap (x ∷ a) (y ∷ b) h = ground (arith, lex_swap a b)
