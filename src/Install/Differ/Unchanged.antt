-- ===== src/Install/Differ/Unchanged.antt =====
-- A release compared with itself.
use wgrd_mod_manager.Install.Differ.{
  HeldChunkIndex, file_unchanged, has_path, index_held_chunks, plan_files, removals_of, diff,
}
use wgrd_mod_manager.Common.{
  ◌≡◌, refl, sym, ap, ap₂, ◌∙◌, inl, inr, Bool, true, false, ◌&&◌, Option, some, List, [], ◌∷◌,
  arith, ◌==◌, Bool-cases, length, find_if, All, Bytes, same, same_iff, same_refl,
}
use wgrd_mod_manager.Domain.Manifest.{ManifestFile, ModManifest, HeldChunkLocation, same_file_refl}
use wgrd_mod_manager.Install.Plan.{FilePlan, is_empty}
use wgrd_mod_manager.Install.Differ.Sound.{In, All-In}

-- no path is there twice
abbrev pub DistinctPaths : List ManifestFile → Type 0
DistinctPaths [] = Unit
DistinctPaths (f ∷ files) = (has_path files f.path ≡ false) × DistinctPaths files

has_path-In :
    (files : List ManifestFile) (f : ManifestFile) → In f files → has_path files f.path ≡ true
unfolding has_path
has_path-In [] f i = absurd i
has_path-In (g ∷ files) f (inl e) = ground (arith, ap (λ h. same h.path f.path) e, same_refl f.path)
has_path-In (g ∷ files) f (inr i) = ground (arith, has_path-In files f i)

find_if-In :
    (files : List ManifestFile) (f : ManifestFile)
    → DistinctPaths files
    → In f files
    → find_if (λ c. same c.path f.path) files ≡ some f
find_if-In [] f d i = absurd i
find_if-In (g ∷ files) f d (inl e) =
    rw (ap (λ h. same h.path f.path) e ∙ same_refl f.path) (ap some e)
find_if-In (g ∷ files) f d (inr i) = elim (Bool-cases (same g.path f.path)) [
  | inl h ↦ absurd (
      clash (has_path-In files f i)
        (ap (has_path files) (sym ((same_iff g.path f.path).0 h)) ∙ d.0))
  | inr h ↦ rw h (find_if-In files f d.1 i)
]
  where
    clash : {b : Bool} → b ≡ true → b ≡ false → ⊥
    clash e f = cc

file_unchanged-In :
    (m : ModManifest) (f : ManifestFile)
    → DistinctPaths m.files
    → In f m.files
    → file_unchanged m f ≡ true
unfolding file_unchanged
file_unchanged-In m f d i = rw (find_if-In m.files f d i, file_unchanged) (same_file_refl f)

plan_files-nil :
    (locate : Bytes → Option HeldChunkLocation) (m : ModManifest) (index : HeldChunkIndex)
    (files : List ManifestFile)
    → All (λ f. file_unchanged m f ≡ true) files
    → plan_files locate m index files ≡ []
unfolding plan_files
plan_files-nil locate m index [] h = refl
plan_files-nil locate m index (f ∷ files) h =
    rw (h.0, plan_files) (plan_files-nil locate m index files h.1)

removals_of-nil :
    (target : ModManifest) (files : List ManifestFile)
    → All (λ f. has_path target.files f.path ≡ true) files
    → removals_of target files ≡ []
unfolding removals_of
removals_of-nil target [] h = refl
removals_of-nil target (f ∷ files) h = rw (h.0, removals_of) (removals_of-nil target files h.1)

-- Nothing is to be done to install the release that is held, where no path is in it twice.
is_empty-diff :
    (join : Bytes → Bytes → Bytes) (m : ModManifest) (root : Bytes)
    (locate : Bytes → Option HeldChunkLocation)
    → DistinctPaths m.files
    → is_empty (diff join m root m locate) ≡ true
unfolding is_empty diff
is_empty-diff join m root locate d =
    let planned =
      plan_files-nil locate m (index_held_chunks join m root) m.files
        (All-In (λ f. file_unchanged m f ≡ true) m.files (λ f i. file_unchanged-In m f d i)) in
    let removed =
      removals_of-nil m m.files
        (All-In (λ f. has_path m.files f.path ≡ true) m.files (has_path-In m.files)) in
    ap₂ (λ a b. length {A = FilePlan} a == 0 && length {A = Bytes} b == 0) planned removed
