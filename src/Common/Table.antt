-- ===== src/Common/Table.antt =====
-- `std::map<std::string, V>` as the list of its entries in the order of iteration.
pub mod Laws
use wgrd_mod_manager.Common.{
  Bool, List, [], ◌∷◌, Option, none, some, ◌≡◌, Bytes, Ordering, lex, same, if◌then◌else◌,
}

abbrev pub Table {ℓ} : Type ℓ → Type ℓ
Table V = List (Bytes × V)

module _ {ℓ} {V : Type ℓ} where
  -- `find`, with `none` for `end()`
  unfoldable pub find : Bytes → Table V → Option V
  find k [] = none
  find k ((j, v) ∷ m) = if same k j then some v else find k m

  -- `insert_or_assign`, `operator[]` on a write, and `emplace` of a key that is absent
  unfoldable pub insert : Bytes → V → Table V → Table V
  insert k v [] = (k, v) ∷ []
  insert k v ((j, w) ∷ m) = elim (lex k j) [
    | Ordering.lt ↦ (k, v) ∷ (j, w) ∷ m
    | Ordering.eq ↦ (k, v) ∷ m
    | Ordering.gt ↦ (j, w) ∷ insert k v m
  ]

  -- `erase` by key
  unfoldable pub erase : Bytes → Table V → Table V
  erase k [] = []
  erase k ((j, w) ∷ m) = if same k j then m else (j, w) ∷ erase k m

  -- `std::erase_if`
  unfoldable pub erase_if : (V → Bool) → Table V → Table V
  erase_if p [] = []
  erase_if p ((j, w) ∷ m) = if p w then erase_if p m else (j, w) ∷ erase_if p m

  -- every key of the table lies above `k`
  abbrev pub Above : Bytes → Table V → Type 0
  Above k [] = Unit
  Above k ((j, v) ∷ m) = (lex k j ≡ Ordering.lt) × Above k m

  -- the keys ascend, so no key stands twice
  abbrev pub Ascends : Table V → Type 0
  Ascends [] = Unit
  Ascends ((j, v) ∷ m) = Above j m × Ascends m
