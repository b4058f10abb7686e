-- ===== src/Common/Pieces.antt =====
-- The pieces between the separators of a text: the loop of `find` and `substr` in
-- src/manager/order/OrderFileGateway.cpp and src/manager/payload/PayloadPathPolicy.cpp.
use Prim.Native.Nat.{ℕ}
use mathlib.Core.Bool.{Bool, false}
use mathlib.Core.Logic.{inl, inr}
use mathlib.Core.List.{List, [], ◌∷◌, ◌++◌}
use mathlib.Core.Path.{◌≡◌, refl, sym, ap, ap₂, ◌∙◌}
use native.Mathlib.Omega.{arith}
use wgrd_mod_manager.Common.Tests.{◌==◌, if◌then◌else◌, Bool-cases, ==_iff}
use wgrd_mod_manager.Common.Lists.{any, All}
use wgrd_mod_manager.Common.Text.{Bytes}

-- a byte in front of the first piece
abbrev pub onto_first : ℕ → List Bytes → List Bytes
onto_first c [] = (c ∷ []) ∷ []
onto_first c (piece ∷ pieces) = (c ∷ piece) ∷ pieces

-- There is always a piece more than there are separators.
unfoldable pub pieces_of : ℕ → Bytes → List Bytes
pieces_of separator [] = [] ∷ []
pieces_of separator (c ∷ text) =
    let rest = pieces_of separator text in if c == separator then [] ∷ rest else onto_first c rest

abbrev pub contains : ℕ → Bytes → Bool
contains c text = any (λ d. d == c) text

pub pieces_of-append :
    (separator : ℕ) (piece text : Bytes)
    → contains separator piece ≡ false
    → pieces_of separator (piece ++ separator ∷ text) ≡ piece ∷ pieces_of separator text
unfolding pieces_of
pieces_of-append separator [] text h = ground arith
pieces_of-append separator (c ∷ piece) text h =
    ground (arith, pieces_of-append separator piece text)

-- the pieces with a separator between each two
abbrev pub joined : ℕ → List Bytes → Bytes
joined separator [] = []
joined separator (piece ∷ []) = piece
joined separator (piece ∷ next ∷ pieces) = piece ++ separator ∷ joined separator (next ∷ pieces)

joined-onto_first :
    (separator c : ℕ) (pieces : List Bytes)
    → joined separator (onto_first c pieces) ≡ c ∷ joined separator pieces
joined-onto_first separator c [] = refl
joined-onto_first separator c (piece ∷ []) = refl
joined-onto_first separator c (piece ∷ next ∷ pieces) = refl

onto_first-cons :
    (c : ℕ) (pieces : List Bytes)
    → (piece : Bytes) × (rest : List Bytes) × (onto_first c pieces ≡ piece ∷ rest)
onto_first-cons c [] = (c ∷ [], [], refl)
onto_first-cons c (piece ∷ pieces) = (c ∷ piece, pieces, refl)

pieces_of-cons :
    (separator : ℕ) (text : Bytes)
    → (piece : Bytes) × (rest : List Bytes) × (pieces_of separator text ≡ piece ∷ rest)
unfolding pieces_of
pieces_of-cons separator [] = ([], [], refl)
pieces_of-cons separator (c ∷ text) = elim (Bool-cases (c == separator)) [
  | inl e ↦ ([], pieces_of separator text, rw e refl)
  | inr e ↦
      let (piece, rest, h) = onto_first-cons c (pieces_of separator text) in (piece, rest, rw e h)
]

-- The pieces of a text, joined again, are the text.
pub joined-pieces_of :
    (separator : ℕ) (text : Bytes) → joined separator (pieces_of separator text) ≡ text
unfolding pieces_of
joined-pieces_of separator [] = refl
joined-pieces_of separator (c ∷ text) = elim (Bool-cases (c == separator)) [
  | inl e ↦
      let (piece, rest, h) = pieces_of-cons separator text in
      let again : joined separator (piece ∷ rest) ≡ text =
        ap (joined separator) (sym h) ∙ joined-pieces_of separator text in
      rw e (rw h (ap₂ (◌∷◌) (sym ((==_iff c separator).0 e)) again))
  | inr e ↦ rw e (
      joined-onto_first separator c (pieces_of separator text)
      ∙ ap (◌∷◌ c) (joined-pieces_of separator text))
]

apart-onto_first :
    (separator c : ℕ) (pieces : List Bytes)
    → (c == separator) ≡ false
    → All (λ p. contains separator p ≡ false) pieces
    → All (λ p. contains separator p ≡ false) (onto_first c pieces)
apart-onto_first separator c [] e a = (ground (arith, e), tt)
apart-onto_first separator c (piece ∷ pieces) e a = (ground (arith, e, a.0), a.1)

-- No piece has a separator in it.
pub pieces_of-apart :
    (separator : ℕ) (text : Bytes)
    → All (λ p. contains separator p ≡ false) (pieces_of separator text)
unfolding pieces_of
pieces_of-apart separator [] = (refl, tt)
pieces_of-apart separator (c ∷ text) = elim (Bool-cases (c == separator)) [
  | inl e ↦ rw e (refl, pieces_of-apart separator text)
  | inr e ↦
      rw e
        (apart-onto_first separator c (pieces_of separator text) e (pieces_of-apart separator text))
]
