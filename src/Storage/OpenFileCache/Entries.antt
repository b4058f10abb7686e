-- ===== src/Storage/OpenFileCache/Entries.antt =====
-- What the loops over the entries do to them.
use wgrd_mod_manager.Common.{
  ℕ, zero, suc, ◌+◌, ◌≡◌, refl, ap, subst, ◌⊎◌, inl, inr, Bool, not, none, some, List, [], ◌∷◌,
  arith, Bool-cases, length, take, keep, All, All-take, All-keep,
}
use wgrd_mod_manager.Storage.Paths.{FilePath, same_path, same_path_iff}
use wgrd_mod_manager.Storage.OpenFileCache.{IFiles, Entry, take_out, close_entry, trim, forget_from}
use wgrd_mod_manager.Storage.OpenFileCache.Bounds.{one, held, IsAway, AreDistinct}

-- One entry of a path, and the others.
pub record Taken (path : FilePath) (entries : List Entry) (e : Entry) (others : List Entry)
    : Type 1 where
  pub has_path : e.path ≡ path
  pub shorter : length entries ≡ suc (length others)
  pub kept : (P : Entry → Type 0) → All P entries → P e × All P others
  pub away : AreDistinct entries → AreDistinct others × All (IsAway path) others
  pub counted : (k : ℕ) → held entries k ≡ one e.handle k + held others k

Taken-first :
    (path : FilePath) (e : Entry) (entries : List Entry)
    → e.path ≡ path
    → Taken path (e ∷ entries) e entries
Taken-first path e entries h = record {
  has_path = h;
  shorter = refl;
  kept = λ P v. v;
  away = λ v. (v.1, subst (λ p. All (IsAway p) entries) h v.0);
  counted = λ k. refl;
}

Taken-later :
    (path : FilePath) (x : Entry) (entries : List Entry) (e : Entry) (others : List Entry)
    → IsAway path x
    → Taken path entries e others
    → Taken path (x ∷ entries) e (x ∷ others)
Taken-later path x entries e others a t = record {
  has_path = t.has_path;
  shorter = ap suc t.shorter;
  kept = λ P v. let (h, k) = t.kept P v.1 in (h, (v.0, k));
  away = λ v. let (d, k) = t.away v.1 in (((t.kept (IsAway x.path) v.0).1, d), (a, k));
  counted = λ k. omega (arith, t.counted k);
}

pub take_out_cases :
    (path : FilePath) (entries : List Entry)
    → ((take_out path entries ≡ none) × All (IsAway path) entries)
      ⊎ ((e : Entry) × (others : List Entry) × (take_out path entries ≡ some (e, others))
          × Taken path entries e others)
unfolding take_out
take_out_cases path [] = inl (refl, tt)
take_out_cases path (x ∷ entries) = elim (Bool-cases (same_path x.path path)) [
  | inl h ↦ inr (
    x,
    entries,
    rw (h, take_out) refl,
    Taken-first path x entries ((same_path_iff x.path path).0 h),
  )
  | inr h ↦ elim (take_out_cases path entries) [
    | inl (e, a) ↦ inl (rw (h, take_out) (rw e refl), (h, a))
    | inr (e, others, f, t) ↦
        inr (e, x ∷ others, rw (h, take_out) (rw f refl), Taken-later path x entries e others h t)
  ]
]

pub AreDistinct-take :
    (n : ℕ) (entries : List Entry) → AreDistinct entries → AreDistinct (take n entries)
AreDistinct-take zero entries d = tt
AreDistinct-take (suc n) [] d = tt
AreDistinct-take (suc n) (e ∷ entries) d =
    (All-take (IsAway e.path) n entries d.0, AreDistinct-take n entries d.1)

pub AreDistinct-keep :
    (p : Entry → Bool) (entries : List Entry) → AreDistinct entries → AreDistinct (keep p entries)
AreDistinct-keep p [] d = tt
AreDistinct-keep p (e ∷ entries) d = elim (Bool-cases (p e)) [
  | inl h ↦ rw h (All-keep (IsAway e.path) p entries d.0, AreDistinct-keep p entries d.1)
  | inr h ↦ rw h (AreDistinct-keep p entries d.1)
]

module _ {W : Type 0} (i : IFiles W) where
  pub trim-take :
      (room : ℕ) (w : W) (entries : List Entry) → (trim i room w entries).0 ≡ take room entries
  unfolding trim
  trim-take zero w [] = refl
  trim-take (suc room) w [] = refl
  trim-take zero w (e ∷ entries) = trim-take zero w entries
  trim-take (suc room) w (e ∷ entries) = ap (◌∷◌ e) (trim-take room w entries)

  pub forget_from-keep :
      (w : W) (path : FilePath) (entries : List Entry)
      → (forget_from i w path entries).0 ≡ keep (λ e. not (same_path e.path path)) entries
  unfolding forget_from
  forget_from-keep w path [] = refl
  forget_from-keep w path (e ∷ entries) = elim (Bool-cases (same_path e.path path)) [
    | inl h ↦ rw (h, forget_from) (forget_from-keep (close_entry i w e) path entries)
    | inr h ↦ rw (h, forget_from) (ap (◌∷◌ e) (forget_from-keep w path entries))
  ]
