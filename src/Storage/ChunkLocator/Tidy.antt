-- ===== src/Storage/ChunkLocator/Tidy.antt =====
-- What every method keeps: no name without a placement, and no placement twice.

use wgrd_mod_manager.Storage.ChunkLocator.{
  ChunkLocation, Locations, same_location, placements_at, insert_location, forget_name,
}
use wgrd_mod_manager.Common.Table.Laws.{
  insert-Ascends, erase-Ascends, All-find, All-insert, All-erase,
}
use wgrd_mod_manager.Common.Table.{find, Ascends}
use wgrd_mod_manager.Common.{
  ◌^◌, ◌<◌, ◌≡◌, refl, sym, subst, inl, inr, Bool, false, not, List, [], ◌∷◌, ◌++◌, arith, ◌==◌,
  if◌then◌else◌, Bool-cases, Option-cases, length, any, keep, All, length-append, All-append,
  All-keep, Bytes,
}
use wgrd_mod_manager.Storage.Paths.{FilePath, same_path_iff, under_folder}

-- no two placements are the same
abbrev pub AreDifferent : List ChunkLocation → Type 0
AreDifferent [] = Unit
AreDifferent (a ∷ placements) =
    All (λ b. same_location a b ≡ false) placements × AreDifferent placements

pub record IsPlaced (e : Bytes × List ChunkLocation) : Type 0 where
  pub some_placement : 0 < length e.1
  pub different : AreDifferent e.1
  pub length_max : All (λ p. p.length < 2 ^ 32) e.1

pub record IsTidy (table : Locations) : Type 0 where
  pub ascends : Ascends table
  pub placed : All IsPlaced table

same_location_swap : (a b : ChunkLocation) → same_location a b ≡ same_location b a
unfolding same_location
same_location_swap a b = ground (arith, same_path_iff a.file b.file, same_path_iff b.file a.file)

append-AreDifferent :
    (placements : List ChunkLocation) (p : ChunkLocation)
    → any (λ candidate. same_location candidate p) placements ≡ false
    → AreDifferent placements
    → AreDifferent (placements ++ p ∷ [])
append-AreDifferent [] p h d = (tt, tt)
append-AreDifferent (a ∷ placements) p h d = (
  All-append (λ b. same_location a b ≡ false) placements (p ∷ []) d.0 (ground arith, tt),
  append-AreDifferent placements p (ground arith) d.1,
)

keep-AreDifferent :
    (p : ChunkLocation → Bool) (placements : List ChunkLocation)
    → AreDifferent placements
    → AreDifferent (keep p placements)
keep-AreDifferent p [] d = tt
keep-AreDifferent p (a ∷ placements) d = elim (Bool-cases (p a)) [
  | inl h ↦ rw h (
    All-keep (λ b. same_location a b ≡ false) p placements d.0,
    keep-AreDifferent p placements d.1,
  )
  | inr h ↦ rw h (keep-AreDifferent p placements d.1)
]

appended-IsPlaced :
    (name : Bytes) (placements : List ChunkLocation) (p : ChunkLocation)
    → p.length < 2 ^ 32
    → IsPlaced (name, placements)
    → IsPlaced
        (name, if any (λ x. same_location x p) placements then placements else placements ++ p ∷ [])
appended-IsPlaced name placements p l v =
    elim (Bool-cases (any (λ x. same_location x p) placements)) [
      | inl g ↦ rw (g, if◌then◌else◌) v
      | inr g ↦
          rw (g, if◌then◌else◌)
            record {
              some_placement = omega (arith, length-append placements (p ∷ []));
              different = append-AreDifferent placements p g v.different;
              length_max =
                  All-append (λ x. x.length < 2 ^ 32) placements (p ∷ []) v.length_max (l, tt);
            }
    ]

abbrev pub next_placements : ChunkLocation → List ChunkLocation → List ChunkLocation
next_placements p placements =
    if any (λ x. same_location x p) placements then placements else placements ++ p ∷ []

next_placements-IsPlaced :
    (table : Locations) (name : Bytes) (p : ChunkLocation)
    → p.length < 2 ^ 32
    → All IsPlaced table
    → IsPlaced (name, next_placements p (placements_at name table))
unfolding placements_at
next_placements-IsPlaced table name p l v = elim (Option-cases (find name table)) [
  | inl h ↦
      let q : placements_at name table ≡ [] = rw (h, placements_at) refl in
      subst (λ ps. IsPlaced (name, next_placements p ps)) (sym q)
        record { some_placement = omega arith; different = (tt, tt); length_max = (l, tt) }
  | inr (placements, h) ↦
      let q : placements_at name table ≡ placements = rw (h, placements_at) refl in
      subst (λ ps. IsPlaced (name, next_placements p ps)) (sym q)
        (appended-IsPlaced name placements p l (All-find IsPlaced name table v h))
]

pub insert_location-IsTidy :
    (table : Locations) (name : Bytes) (p : ChunkLocation)
    → p.length < 2 ^ 32
    → IsTidy table
    → IsTidy (insert_location table name p)
unfolding insert_location
insert_location-IsTidy table name p l v =
    let next = next_placements p (placements_at name table) in
    record {
      ascends = insert-Ascends name next table v.ascends;
      placed =
          All-insert IsPlaced name next table (next_placements-IsPlaced table name p l v.placed)
            v.placed;
    }

pub forget_name-IsTidy :
    (table : Locations) (folder : FilePath) (name : Bytes)
    → IsTidy table
    → IsTidy (forget_name table folder name)
unfolding forget_name
forget_name-IsTidy table folder name v = elim (Option-cases (find name table)) [
  | inl h ↦ rw (h, forget_name) v
  | inr (placements, h) ↦
      let away = λ (x : ChunkLocation). not (under_folder x.file folder) in
      let q = All-find IsPlaced name table v.placed h in
      rw (h, forget_name)
        (elim (Bool-cases (length (keep away placements) == 0)) [
          | inl g ↦ rw g record {
            ascends = erase-Ascends name table v.ascends;
            placed = All-erase IsPlaced name table v.placed;
          }
          | inr g ↦ rw g record {
            ascends = insert-Ascends name (keep away placements) table v.ascends;
            placed =
                All-insert IsPlaced name (keep away placements) table
                  record {
                    some_placement = ground arith;
                    different = keep-AreDifferent away placements q.different;
                    length_max = All-keep (λ x. x.length < 2 ^ 32) away placements q.length_max;
                  }
                  v.placed;
          }
        ])
]
