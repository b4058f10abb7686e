-- ===== src/Transfer/SeedRoster/Paired.antt =====
-- The two lists of a roster go in step, and no identifier is in them twice.
use wgrd_mod_manager.Transfer.SeedRoster.{
  SeededTorrent, SeedEntry, SeedRoster, position_of, item_at, erase_at, is_seeded, add, remove,
}
use wgrd_mod_manager.Common.{
  ℕ, zero, suc, ◌≡◌, refl, sym, ap, ◌∙◌, ◌↔◌, inl, inr, Bool, true, false, not, ◌||◌, none, some,
  List, [], ◌∷◌, ◌++◌, arith, ltb, if◌then◌else◌, Bool-cases, Option-cases, length, any, Bytes,
  same, same_iff,
}

abbrev pub is_named : List SeededTorrent → Bytes → Bool
is_named seeded identifier = any (λ s. same s.identifier identifier) seeded

abbrev pub Distinct : List SeededTorrent → Type 0
Distinct [] = Unit
Distinct (s ∷ seeded) = (is_named seeded s.identifier ≡ false) × Distinct seeded

-- Each seed has its entry at the same place.
abbrev pub InStep : List SeededTorrent → List SeedEntry → Type 0
InStep [] [] = Unit
InStep [] (e ∷ entries) = ⊥
InStep (s ∷ seeded) [] = ⊥
InStep (s ∷ seeded) (e ∷ entries) = (s.identifier ≡ e.identifier) × InStep seeded entries

pub record IsPaired (r : SeedRoster) : Type 0 where
  pub in_step : InStep r.seeded r.entries
  pub distinct : Distinct r.seeded

is_named-position_of :
    (seeded : List SeededTorrent) (identifier : Bytes)
    → ltb (position_of seeded identifier) (length seeded) ≡ is_named seeded identifier
unfolding position_of
is_named-position_of [] identifier = ground arith
is_named-position_of (s ∷ seeded) identifier =
    ground (arith, is_named-position_of seeded identifier)

InStep-append :
    (seeded : List SeededTorrent) (entries : List SeedEntry) (s : SeededTorrent) (e : SeedEntry)
    → InStep seeded entries
    → s.identifier ≡ e.identifier
    → InStep (seeded ++ s ∷ []) (entries ++ e ∷ [])
InStep-append [] [] s e h i = (i, tt)
InStep-append [] (f ∷ entries) s e h i = absurd h
InStep-append (t ∷ seeded) [] s e h i = absurd h
InStep-append (t ∷ seeded) (f ∷ entries) s e h i = (h.0, InStep-append seeded entries s e h.1 i)

is_named-append :
    (seeded : List SeededTorrent) (s : SeededTorrent) (identifier : Bytes)
    → is_named (seeded ++ s ∷ []) identifier
      ≡ (is_named seeded identifier || same s.identifier identifier)
is_named-append [] s identifier = ground arith
is_named-append (t ∷ seeded) s identifier = ground (arith, is_named-append seeded s identifier)

same_swap : (a b : Bytes) → same a b ≡ same b a
unfolding same
same_swap [] [] = refl
same_swap [] (y ∷ b) = refl
same_swap (x ∷ a) [] = refl
same_swap (x ∷ a) (y ∷ b) = ground (arith, same_swap a b)

Distinct-append :
    (seeded : List SeededTorrent) (s : SeededTorrent)
    → Distinct seeded
    → is_named seeded s.identifier ≡ false
    → Distinct (seeded ++ s ∷ [])
Distinct-append [] s d h = (refl, tt)
Distinct-append (t ∷ seeded) s d h = (
  ground (arith, is_named-append seeded s t.identifier, same_swap s.identifier t.identifier),
  Distinct-append seeded s d.1 (ground arith),
)

-- `Add` of a seed with an entry of its identifier keeps a roster in order, and it takes the seed
-- exactly where its identifier is new.
add-IsPaired :
    (r : SeedRoster) (s : SeededTorrent) (e : SeedEntry)
    → s.identifier ≡ e.identifier
    → IsPaired r
    → IsPaired (add r s e).1 × ((add r s e).0 ≡ not (is_seeded r s.identifier))
unfolding add is_seeded
add-IsPaired r s e i v =
    elim (Bool-cases (ltb (position_of r.seeded s.identifier) (length r.seeded))) [
      | inl h ↦ rw (h, add) (v, refl)
      | inr h ↦
          rw (h, add)
            (
              record {
                in_step = InStep-append r.seeded r.entries s e v.in_step i;
                distinct =
                    Distinct-append r.seeded s v.distinct
                      (sym (is_named-position_of r.seeded s.identifier) ∙ h);
              },
              refl,
            )
    ]

InStep-erase_at :
    (n : ℕ) (seeded : List SeededTorrent) (entries : List SeedEntry)
    → InStep seeded entries
    → InStep (erase_at n seeded) (erase_at n entries)
InStep-erase_at n [] [] h = tt
InStep-erase_at n [] (f ∷ entries) h = absurd h
InStep-erase_at n (t ∷ seeded) [] h = absurd h
InStep-erase_at zero (t ∷ seeded) (f ∷ entries) h = h.1
InStep-erase_at (suc n) (t ∷ seeded) (f ∷ entries) h = (h.0, InStep-erase_at n seeded entries h.1)

is_named-erase_at :
    (n : ℕ) (seeded : List SeededTorrent) (identifier : Bytes)
    → is_named seeded identifier ≡ false
    → is_named (erase_at n seeded) identifier ≡ false
is_named-erase_at n [] identifier h = h
is_named-erase_at zero (t ∷ seeded) identifier h = ground arith
is_named-erase_at (suc n) (t ∷ seeded) identifier h =
    ground (arith, is_named-erase_at n seeded identifier)

Distinct-erase_at :
    (n : ℕ) (seeded : List SeededTorrent) → Distinct seeded → Distinct (erase_at n seeded)
Distinct-erase_at n [] d = tt
Distinct-erase_at zero (t ∷ seeded) d = d.1
Distinct-erase_at (suc n) (t ∷ seeded) d =
    (is_named-erase_at n seeded t.identifier d.0, Distinct-erase_at n seeded d.1)

is_named-erased :
    (seeded : List SeededTorrent) (k j : Bytes)
    → Distinct seeded
    → is_named (erase_at (position_of seeded k) seeded) j
      ≡ (if same k j then false else is_named seeded j)
unfolding position_of
is_named-erased [] k j d = ground arith
is_named-erased (t ∷ seeded) k j d = elim (Bool-cases (same t.identifier k)) [
  | inl h ↦ rw (h, position_of) (ground (arith, like_key, like_head, d.0))
  | inr h ↦ rw (h, position_of) (ground (arith, is_named-erased seeded k j d.1, like_sought))
]
  where
    like_key : same t.identifier k ≡ true → same t.identifier j ≡ same k j
    like_key h = ap (λ a. same a j) ((same_iff t.identifier k).0 h)

    like_head : same t.identifier j ≡ true → is_named seeded t.identifier ≡ is_named seeded j
    like_head h = ap (is_named seeded) ((same_iff t.identifier j).0 h)

    like_sought : same k j ≡ true → same t.identifier k ≡ same t.identifier j
    like_sought h = ap (same t.identifier) ((same_iff k j).0 h)

item_at-none : {A : Type 0} (n : ℕ) (xs : List A) → item_at n xs ≡ none → ltb n (length xs) ≡ false
item_at-none n [] h = ground arith
item_at-none zero (x ∷ xs) h = cc
item_at-none (suc n) (x ∷ xs) h = ground (arith, item_at-none n xs h)

item_at-some :
    {A : Type 0} (n : ℕ) (xs : List A) {x : A} → item_at n xs ≡ some x → ltb n (length xs) ≡ true
item_at-some n [] h = cc
item_at-some zero (x ∷ xs) h = ground arith
item_at-some (suc n) (x ∷ xs) h = ground (arith, item_at-some n xs h)

-- `Remove` from a roster in order answers exactly where the identifier is seeded; afterwards it is
-- not, every other one is as before, and the roster is in order.
remove_lem :
    (r : SeedRoster) (k j : Bytes)
    → IsPaired r
    → IsPaired (remove r k).1
      × (((remove r k).0 ≡ none) ↔ (is_seeded r k ≡ false))
      × (is_seeded (remove r k).1 j ≡ (if same k j then false else is_seeded r j))
unfolding remove is_seeded
remove_lem r k j v = elim (Option-cases (item_at (position_of r.seeded k) r.seeded)) [
  | inl h ↦
      rw (h, remove)
        (
          v,
          (λ e. item_at-none (position_of r.seeded k) r.seeded h, λ e. refl),
          ground (arith, item_at-none (position_of r.seeded k) r.seeded h, unseeded),
        )
  | inr (s, h) ↦
      rw (h, remove)
        (
          record {
            in_step = InStep-erase_at (position_of r.seeded k) r.seeded r.entries v.in_step;
            distinct = Distinct-erase_at (position_of r.seeded k) r.seeded v.distinct;
          },
          (λ e. cc, λ e. absurd (clash (item_at-some (position_of r.seeded k) r.seeded h) e)),
          is_named-position_of _ j
              ∙ is_named-erased r.seeded k j v.distinct
              ∙ ap (λ b. if same k j then false else b) (sym (is_named-position_of r.seeded j)),
        )
]
  where
    unseeded :
        same k j ≡ true
        → ltb (position_of r.seeded k) (length r.seeded)
          ≡ ltb (position_of r.seeded j) (length r.seeded)
    unseeded e = ap (λ a. ltb (position_of r.seeded a) (length r.seeded)) ((same_iff k j).0 e)

    clash : {b : Bool} → b ≡ true → b ≡ false → ⊥
    clash e f = cc
