-- ===== src/Storage/ChunkLocator/Forgotten.antt =====
-- What `Forget` leaves.

use wgrd_mod_manager.Storage.ChunkLocator.Found.{placements_at-insert}
use wgrd_mod_manager.Storage.Paths.{FilePath, under_folder}
use wgrd_mod_manager.Storage.ChunkLocator.{ChunkLocation, Locations, placements_at, forget_name}
use wgrd_mod_manager.Common.Table.Laws.{find-erase}
use wgrd_mod_manager.Common.Table.{find, erase, Ascends}
use wgrd_mod_manager.Common.{
  ◌≡◌, refl, sym, ap, ◌∙◌, ◌⊎◌, inl, inr, Bool, true, false, not, List, [], ◌∷◌, arith, ◌==◌,
  if◌then◌else◌, Bool-cases, Option-cases, length, keep, Bytes, same, same_iff,
}

-- the placements that are not under the folder
abbrev pub away : FilePath → List ChunkLocation → List ChunkLocation
away folder placements = keep (λ x. not (under_folder x.file folder)) placements

keep-keep : {A : Type 0} (p : A → Bool) (xs : List A) → keep p (keep p xs) ≡ keep p xs
keep-keep p [] = refl
keep-keep p (x ∷ xs) = elim (Bool-cases (p x)) [
  | inl e ↦ rw e (rw e (ap (◌∷◌ x) (keep-keep p xs)))
  | inr e ↦ rw e (keep-keep p xs)
]

pub placements_at-erase :
    (n name : Bytes) (table : Locations)
    → Ascends table
    → placements_at n (erase name table) ≡ (if same n name then [] else placements_at n table)
unfolding placements_at
placements_at-erase n name table a = ground (arith, find-erase name n table a)

length-zero : {A : Type 0} (xs : List A) → length xs ≡ 0 → xs ≡ []
length-zero [] h = refl
length-zero (x ∷ xs) h = absurd (omega arith)

if_agree :
    {A : Type 0} (b : Bool) (x y z : A)
    → (b ≡ true → x ≡ y)
    → (if b then x else z) ≡ (if b then y else z)
if_agree true x y z h = h refl
if_agree false x y z h = refl

if_same : {A : Type 0} (b : Bool) (z : A) → z ≡ (if b then z else z)
if_same true z = refl
if_same false z = refl

placements_at-forget_name :
    (table : Locations) (folder : FilePath) (name n : Bytes)
    → Ascends table
    → placements_at n (forget_name table folder name)
      ≡ (if same n name then away folder (placements_at n table) else placements_at n table)
unfolding forget_name placements_at
placements_at-forget_name table folder name n a = elim (Option-cases (find name table)) [
  | inl h ↦
      let none_there : same n name ≡ true
          → placements_at n table ≡ away folder (placements_at n table) =
        λ e. rw (ap (λ k. find k table) ((same_iff n name).0 e) ∙ h, placements_at) refl in
      rw (h, forget_name)
        (if_same (same n name) (placements_at n table)
          ∙ if_agree (same n name) (placements_at n table) (away folder (placements_at n table))
              (placements_at n table) none_there)
  | inr (placements, h) ↦
      let there : same n name ≡ true → placements ≡ placements_at n table =
        λ e. rw (ap (λ k. find k table) ((same_iff n name).0 e) ∙ h, placements_at) refl in
      let kept : same n name ≡ true → away folder placements ≡ away folder (placements_at n table) =
        λ e. ap (away folder) (there e) in
      rw (h, forget_name)
        (elim (Bool-cases (length (away folder placements) == 0)) [
          | inl g ↦
              let none_left : [] ≡ away folder placements =
                sym (length-zero (away folder placements) (ground (arith, g))) in
              rw g (
                placements_at-erase n name table a
                ∙ if_agree (same n name) [] (away folder (placements_at n table))
                    (placements_at n table) (λ e. none_left ∙ kept e))
          | inr g ↦ rw g (
              placements_at-insert n name (away folder placements) table
              ∙ if_agree (same n name) (away folder placements)
                  (away folder (placements_at n table)) (placements_at n table) kept)
        ])
]

-- no placement under the name is in the folder
abbrev pub IsAway : Locations → FilePath → Bytes → Type 0
IsAway table folder name = away folder (placements_at name table) ≡ placements_at name table

-- a turn clears its own name, and keeps every name clear that was
pub forget_name-IsAway :
    (table : Locations) (folder : FilePath) (name n : Bytes)
    → Ascends table
    → (same n name ≡ true) ⊎ IsAway table folder n
    → IsAway (forget_name table folder name) folder n
forget_name-IsAway table folder name n a h =
    let p = placements_at n table in
    let e = placements_at-forget_name table folder name n a in
    elim (Bool-cases (same n name)) [
      | inl g ↦
          let e' : placements_at n (forget_name table folder name) ≡ away folder p =
            e ∙ rw g refl in
          ap (away folder) e' ∙ keep-keep (λ x. not (under_folder x.file folder)) p ∙ sym e'
      | inr g ↦
          let e' : placements_at n (forget_name table folder name) ≡ p = e ∙ rw g refl in
          ap (away folder) e' ∙ elim h [ inl f ↦ absurd (both (sym f ∙ g)) | inr v ↦ v ] ∙ sym e'
    ]
  where
    both : true ≡ false → ⊥
    both e = cc

-- and takes nothing away that is elsewhere
pub forget_name-away :
    (table : Locations) (folder : FilePath) (name n : Bytes)
    → Ascends table
    → away folder (placements_at n (forget_name table folder name))
      ≡ away folder (placements_at n table)
forget_name-away table folder name n a =
    let p = placements_at n table in
    let e = placements_at-forget_name table folder name n a in
    ap (away folder) e ∙ elim (Bool-cases (same n name)) [
      | inl g ↦ rw g (keep-keep (λ x. not (under_folder x.file folder)) p)
      | inr g ↦ rw g refl
    ]
