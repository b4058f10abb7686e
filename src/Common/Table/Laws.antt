-- ===== src/Common/Table/Laws.antt =====
-- What the operations of a table do to look-ups, to the order of the keys and to the size.
use wgrd_mod_manager.Common.{
  ◌+◌, ◌≤◌, Ordering, ◌≡◌, refl, sym, ap, ap₂, subst, ◌≢◌, inl, inr, Bool, true, false, none, some,
  [], ◌∷◌, arith, if◌then◌else◌, Bool-cases, length, All, Any, Bytes, same, same_iff, lex, lex_eq,
  lex_trans, lex_swap,
}
use wgrd_mod_manager.Common.Table.{Table, find, insert, erase, erase_if, Above, Ascends}

module _ {ℓ} {V : Type ℓ} where
  pub find-insert :
      (k j : Bytes) (v : V) (m : Table V)
      → find j (insert k v m) ≡ (if same j k then some v else find j m)
  unfolding find insert
  find-insert k j v [] = refl
  find-insert k j v ((i, w) ∷ m) =
      ground (arith, same_iff j k, same_iff j i, lex_eq k i, find-insert k j v m)

  pub find-insert_self : (k : Bytes) (v : V) (m : Table V) → find k (insert k v m) ≡ some v
  find-insert_self k v m = ground (arith, find-insert k k v m, same_iff k k)

  Above-trans : (i j : Bytes) (m : Table V) → lex i j ≡ Ordering.lt → Above j m → Above i m
  Above-trans i j [] h a = tt
  Above-trans i j ((k, v) ∷ m) h a = (lex_trans i j k h a.0, Above-trans i j m h a.1)

  Above-insert :
      (i k : Bytes) (v : V) (m : Table V)
      → lex i k ≡ Ordering.lt
      → Above i m
      → Above i (insert k v m)
  unfolding insert
  Above-insert i k v [] h a = (h, tt)
  Above-insert i k v ((j, w) ∷ m) h a = ground (arith, Above-insert i k v m h a.1)

  pub insert-Ascends : (k : Bytes) (v : V) (m : Table V) → Ascends m → Ascends (insert k v m)
  unfolding insert
  insert-Ascends k v [] a = (tt, tt)
  insert-Ascends k v ((j, w) ∷ m) a = ground (
    arith,
    lex_eq k j,
    lex_swap k j,
    insert-Ascends k v m a.1,
    Above-insert j k v m,
    Above-trans k j m,
  )

  Above-erase : (i k : Bytes) (m : Table V) → Above i m → Above i (erase k m)
  unfolding erase
  Above-erase i k [] a = tt
  Above-erase i k ((j, w) ∷ m) a = ground (arith, Above-erase i k m a.1)

  pub erase-Ascends : (k : Bytes) (m : Table V) → Ascends m → Ascends (erase k m)
  unfolding erase
  erase-Ascends k [] a = tt
  erase-Ascends k ((j, w) ∷ m) a = ground (arith, erase-Ascends k m a.1, Above-erase j k m a.0)

  Above-erase_if : (i : Bytes) (p : V → Bool) (m : Table V) → Above i m → Above i (erase_if p m)
  unfolding erase_if
  Above-erase_if i p [] a = tt
  Above-erase_if i p ((j, w) ∷ m) a = ground (arith, Above-erase_if i p m a.1)

  pub erase_if-Ascends : (p : V → Bool) (m : Table V) → Ascends m → Ascends (erase_if p m)
  unfolding erase_if
  erase_if-Ascends p [] a = tt
  erase_if-Ascends p ((j, w) ∷ m) a =
      ground (arith, erase_if-Ascends p m a.1, Above-erase_if j p m a.0)

  -- A key below the first key of an ascending table is absent.
  pub find-Above : (k : Bytes) (m : Table V) → Above k m → find k m ≡ none
  unfolding find
  find-Above k [] a = refl
  find-Above k ((j, w) ∷ m) a = ground (arith, same_iff k j, lex_eq k j, find-Above k m a.1)

  pub length-insert-le : (k : Bytes) (v : V) (m : Table V) → length (insert k v m) ≤ length m + 1
  unfolding insert
  length-insert-le k v [] = omega arith
  length-insert-le k v ((j, w) ∷ m) = ground (arith, length-insert-le k v m)

  -- A write to a key that is present keeps the size.
  pub length-insert_present :
      (k : Bytes) (v : V) (m : Table V)
      → Ascends m
      → find k m ≢ none
      → length (insert k v m) ≡ length m
  unfolding insert find
  length-insert_present k v [] a h = absurd (h refl)
  length-insert_present k v ((j, w) ∷ m) a h = ground (
    arith,
    lex_eq k j,
    same_iff k j,
    length-insert_present k v m a.1,
    find-Above k m,
    Above-trans k j m,
  )

  pub length-erase-le : (k : Bytes) (m : Table V) → length (erase k m) ≤ length m
  unfolding erase
  length-erase-le k [] = omega arith
  length-erase-le k ((j, w) ∷ m) = ground (arith, length-erase-le k m)

  pub length-erase : (k : Bytes) (m : Table V) → find k m ≢ none → length (erase k m) + 1 ≡ length m
  unfolding erase find
  length-erase k [] h = absurd (h refl)
  length-erase k ((j, w) ∷ m) h = ground (arith, length-erase k m)

  pub length-erase_if-le : (p : V → Bool) (m : Table V) → length (erase_if p m) ≤ length m
  unfolding erase_if
  length-erase_if-le p [] = omega arith
  length-erase_if-le p ((j, w) ∷ m) = ground (arith, length-erase_if-le p m)

  -- An erased key is gone, and every other key is as before.
  pub find-erase :
      (k j : Bytes) (m : Table V)
      → Ascends m
      → find j (erase k m) ≡ (if same j k then none else find j m)
  unfolding erase find
  find-erase k j [] a = ground arith
  find-erase k j ((i, w) ∷ m) a =
      ground (arith, same_iff j k, same_iff k i, same_iff j i, find-erase k j m a.1, find-Above j m)

  -- What holds of every entry holds of the entry that a look-up finds, and after a write.
  pub All-find {κ} :
      (P : Bytes × V → Type κ) (k : Bytes) {v : V} (m : Table V)
      → All P m
      → find k m ≡ some v
      → P (k, v)
  unfolding find
  All-find P k [] a e = cc
  All-find P k {v} ((j, w) ∷ m) a e = elim (Bool-cases (same k j)) [
    | inl hit ↦ subst P (ap₂ (λ x y. (x, y)) (sym ((same_iff k j).0 hit)) (found hit)) a.0
    | inr miss ↦ All-find P k m a.1 (ground arith)
  ]
    where
      found : same k j ≡ true → w ≡ v
      found hit = ground arith

  pub All-insert {κ} :
      (P : Bytes × V → Type κ) (k : Bytes) (v : V) (m : Table V)
      → P (k, v)
      → All P m
      → All P (insert k v m)
  unfolding insert
  All-insert P k v [] h a = (h, tt)
  All-insert P k v ((j, w) ∷ m) h a = go (lex k j) (All-insert P k v m h a.1)
    where
      go :
          (o : Ordering)
          → All P (insert k v m)
          → All P (elim o [
            | Ordering.lt ↦ (k, v) ∷ (j, w) ∷ m
            | Ordering.eq ↦ (k, v) ∷ m
            | Ordering.gt ↦ (j, w) ∷ insert k v m
          ])
      go Ordering.lt rest = (h, (a.0, a.1))
      go Ordering.eq rest = (h, a.1)
      go Ordering.gt rest = (a.0, rest)

  pub All-erase {κ} :
      (P : Bytes × V → Type κ) (k : Bytes) (m : Table V) → All P m → All P (erase k m)
  unfolding erase
  All-erase P k [] a = tt
  All-erase P k ((j, w) ∷ m) a = go (same k j) (All-erase P k m a.1)
    where
      go : (b : Bool) → All P (erase k m) → All P (if b then m else (j, w) ∷ erase k m)
      go true rest = a.1
      go false rest = (a.0, rest)

module _ {V : Type 0} where
  -- An entry of an ascending table is what a look-up of its key finds.
  pub find_entry :
      (e : Bytes × V) (m : Table V) → Ascends m → Any (λ x. x ≡ e) m → find e.0 m ≡ some e.1
  unfolding find
  find_entry e [] a i = absurd i
  find_entry e ((j, w) ∷ m) a (inl h) = rw (same_key h) (ap (λ (x : Bytes × V). some x.1) h)
    where
      same_key : (j, w) ≡ e → same e.0 j ≡ true
      same_key h = (same_iff e.0 j).1 (sym (ap (λ (x : Bytes × V). x.0) h))
  find_entry e ((j, w) ∷ m) a (inr h) =
      let later = find_entry e m a.1 h in ground (arith, later, find-Above j m a.0, same_iff e.0 j)
