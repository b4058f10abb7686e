-- ===== src/Install/Differ/Coverage.antt =====
-- Which files are there once a plan has been carried out.

use wgrd_mod_manager.Common.{
  ◌≡◌, refl, ap, ap₂, ◌∙◌, ◌⊎◌, inl, inr, Bool, true, false, not, ◌&&◌, ◌||◌, Option, some, List,
  [], ◌∷◌, map, arith, ◌==◌, Bool-cases, Option-cases, any, find_if, All, Any, All-imply, Bytes,
  same, same_iff, same_refl,
}
use wgrd_mod_manager.Common.Table.{find}
use wgrd_mod_manager.Domain.FixedBytes.{to_hex}
use wgrd_mod_manager.Domain.Manifest.{
  ManifestChunk, ManifestFile, ModManifest, HeldChunkLocation, same_file_eq,
}
use wgrd_mod_manager.Install.Differ.{
  HeldChunkIndex, file_unchanged, has_path, index_held_chunks, place, plan_files, removals_of, diff,
}
use wgrd_mod_manager.Install.Plan.{ChunkPlacement, FilePlan, InstallPlan}

-- the plan writes a file of this path
is_planned : List FilePlan → Bytes → Bool
is_planned plans path = any (λ p. same p.path path) plans

-- the plan removes a file of this path
is_removed : List Bytes → Bytes → Bool
is_removed removals path = any (λ r. same r path) removals

-- one of the files has this path
abbrev pub is_listed : List ManifestFile → Bytes → Bool
is_listed files path = any (λ f. same f.path path) files

-- Of the files that are there when the plan has been carried out: those held that it does not
-- remove, and those that it writes.
abbrev pub is_installed : ModManifest → InstallPlan → Bytes → Bool
is_installed held_manifest plan path =
    (is_listed held_manifest.files path && not (any (λ r. same r path) plan.removals))
    || any (λ p. same p.path path) plan.files

same-find_if :
    (files : List ManifestFile) (path : Bytes) (f : ManifestFile)
    → find_if (λ candidate. same candidate.path path) files ≡ some f
    → has_path files path ≡ true
unfolding has_path
same-find_if [] path f h = ground arith
same-find_if (g ∷ files) path f h = ground (arith, same-find_if files path f)

file_unchanged-has_path :
    (m : ModManifest) (f : ManifestFile)
    → file_unchanged m f ≡ true
    → has_path m.files f.path ≡ true
unfolding file_unchanged
file_unchanged-has_path m f h =
    elim (Option-cases (find_if (λ candidate. same candidate.path f.path) m.files)) [
      | inl e ↦ ground (arith, e)
      | inr (g, e) ↦ same-find_if m.files f.path g e
    ]

-- equal paths are found in the same files
has_path-same :
    (files : List ManifestFile) (a b : Bytes)
    → same a b ≡ true
    → has_path files a ≡ has_path files b
has_path-same files a b h = ap (has_path files) ((same_iff a b).0 h)

is_removed-removals_of :
    (target : ModManifest) (files : List ManifestFile) (path : Bytes)
    → is_removed (removals_of target files) path
      ≡ (has_path files path && not (has_path target.files path))
unfolding removals_of is_removed has_path
is_removed-removals_of target [] path = refl
is_removed-removals_of target (f ∷ files) path =
    ground (arith, is_removed-removals_of target files path, has_path-same target.files f.path path)

module _ (locate : Bytes → Option HeldChunkLocation) (m : ModManifest)
    (index : HeldChunkIndex) where
  planned-has_path :
      (files : List ManifestFile) (path : Bytes)
      → is_planned (plan_files locate m index files) path ≡ true
      → has_path files path ≡ true
  unfolding plan_files is_planned has_path
  planned-has_path [] path h = h
  planned-has_path (f ∷ files) path h = ground (arith, planned-has_path files path)

  has_path-planned :
      (files : List ManifestFile) (path : Bytes)
      → has_path files path ≡ true
      → (is_planned (plan_files locate m index files) path || has_path m.files path) ≡ true
  unfolding plan_files is_planned has_path
  has_path-planned [] path h = ground arith
  has_path-planned (f ∷ files) path h = ground (
    arith,
    has_path-planned files path,
    file_unchanged-has_path m f,
    has_path-same m.files f.path path,
  )

-- the chunk that a placement puts into its file
abbrev pub placed : ChunkPlacement → ManifestChunk
placed p = record { digest = p.digest; offset = p.target_offset; length = p.length }

-- The plan writes the file: at its path, of its size, and with its chunks.
abbrev pub IsWritten : ManifestFile → FilePlan → Type 0
IsWritten f p = (p.path ≡ f.path) × (p.size ≡ f.size) × (map placed p.placements ≡ f.chunks)

-- The file is written by the plan, or the very same file, with its size and its chunks, is held at
-- its path and is not removed.
abbrev pub IsDelivered : ModManifest → InstallPlan → ManifestFile → Type 0
IsDelivered held_manifest plan f =
    Any (IsWritten f) plan.files
    ⊎ ((find_if (λ g. same g.path f.path) held_manifest.files ≡ some f)
        × (any (λ r. same r f.path) plan.removals ≡ false))

file_unchanged-found :
    (m : ModManifest) (f : ManifestFile)
    → file_unchanged m f ≡ true
    → find_if (λ candidate. same candidate.path f.path) m.files ≡ some f
unfolding file_unchanged
file_unchanged-found m f h =
    elim (Option-cases (find_if (λ candidate. same candidate.path f.path) m.files)) [
      | inl e ↦ absurd (refused (rw (e, file_unchanged) at h))
      | inr (g, e) ↦ e ∙ ap some (same_file_eq g f (rw (e, file_unchanged) at h))
    ]
  where
    refused : false ≡ true → ⊥
    refused e = cc

module _ (locate : Bytes → Option HeldChunkLocation) (m : ModManifest)
    (index : HeldChunkIndex) where
  placed-place : (c : ManifestChunk) → placed (place locate index c) ≡ c
  unfolding place
  placed-place c = elim (Option-cases (find (to_hex c.digest) index)) [
    | inl e ↦ elim (Option-cases (locate c.digest)) [
      | inl g ↦ rw (e, place) (rw g refl)
      | inr (l, g) ↦ elim (Bool-cases (l.length == c.length)) [
        | inl k ↦ rw (e, place) (rw g (rw k refl))
        | inr k ↦ rw (e, place) (rw g (rw k refl))
      ]
    ]
    | inr (l, e) ↦ rw (e, place) refl
  ]

  placed-map : (cs : List ManifestChunk) → map placed (map (place locate index) cs) ≡ cs
  placed-map [] = refl
  placed-map (c ∷ cs) = ap₂ (◌∷◌) (placed-place c) (placed-map cs)

  more_planned :
      (f : ManifestFile) (files : List ManifestFile) (P : FilePlan → Type 0)
      → Any P (plan_files locate m index files)
      → Any P (plan_files locate m index (f ∷ files))
  unfolding plan_files
  more_planned f files P h = elim (Bool-cases (file_unchanged m f)) [
    | inl e ↦ rw (e, plan_files) h
    | inr e ↦ rw (e, plan_files) (inr h)
  ]

  each_planned :
      (files : List ManifestFile)
      → All
          (λ f. Any (IsWritten f) (plan_files locate m index files) ⊎ (file_unchanged m f ≡ true))
          files
  unfolding plan_files
  each_planned [] = tt
  each_planned (f ∷ files) = (
    elim (Bool-cases (file_unchanged m f)) [
      | inl e ↦ inr e
      | inr e ↦ inl (rw (e, plan_files) (inl (refl, refl, placed-map f.chunks)))
    ],
    All-imply
        (λ g. Any (IsWritten g) (plan_files locate m index files) ⊎ (file_unchanged m g ≡ true))
        (λ g.
          Any (IsWritten g) (plan_files locate m index (f ∷ files)) ⊎ (file_unchanged m g ≡ true))
        (λ g h. elim h [ inl w ↦ inl (more_planned f files (IsWritten g) w) | inr u ↦ inr u ]) files
        (each_planned files),
  )

has_path-member : (files : List ManifestFile) → All (λ f. has_path files f.path ≡ true) files
unfolding has_path
has_path-member [] = tt
has_path-member (f ∷ files) = (
  ground (arith, same_refl f.path),
  All-imply (λ g. has_path files g.path ≡ true) (λ g. has_path (f ∷ files) g.path ≡ true)
      (λ g h. ground (arith, h)) files (has_path-member files),
)

-- Each file of the target is delivered by a plan of `diff`.
each-IsDelivered :
    (join : Bytes → Bytes → Bytes) (held_manifest : ModManifest) (held_root : Bytes)
    (target : ModManifest) (locate : Bytes → Option HeldChunkLocation) (files : List ManifestFile)
    → All (λ f. has_path target.files f.path ≡ true) files
    → All
        (λ f.
          Any (IsWritten f) (diff join held_manifest held_root target locate).files
          ⊎ (file_unchanged held_manifest f ≡ true))
        files
    → All (IsDelivered held_manifest (diff join held_manifest held_root target locate)) files
unfolding diff is_removed
each-IsDelivered join held_manifest held_root target locate [] a b = tt
each-IsDelivered join held_manifest held_root target locate (f ∷ files) a b = (
  elim b.0 [
    | inl w ↦ inl w
    | inr u ↦ inr (
      file_unchanged-found held_manifest f u,
      is_removed-removals_of target held_manifest.files f.path ∙ rw a.0 (ground arith),
    )
  ],
  each-IsDelivered join held_manifest held_root target locate files a.1 b.1,
)

-- When a plan has been carried out, there is a file of a path exactly where the target has one, and
-- each file of the target has its content: the plan writes it with its size and its chunks, each at
-- its place, or the very same file is held and stays.
pub is_installed-diff :
    (join : Bytes → Bytes → Bytes) (held_manifest : ModManifest) (held_root : Bytes)
    (target : ModManifest) (locate : Bytes → Option HeldChunkLocation) (path : Bytes)
    → (is_installed held_manifest (diff join held_manifest held_root target locate) path
        ≡ is_listed target.files path)
      × All
          (IsDelivered held_manifest (diff join held_manifest held_root target locate))
          target.files
unfolding diff has_path is_planned is_removed
is_installed-diff join held_manifest held_root target locate path =
    let index = index_held_chunks join held_manifest held_root in
    (
      ground (
        arith,
        is_removed-removals_of target held_manifest.files path,
        planned-has_path locate held_manifest index target.files path,
        has_path-planned locate held_manifest index target.files path,
      ),
      each-IsDelivered join held_manifest held_root target locate target.files
          (has_path-member target.files) (each_planned locate held_manifest index target.files),
    )
