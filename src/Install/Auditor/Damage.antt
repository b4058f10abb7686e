-- ===== src/Install/Auditor/Damage.antt =====
-- What an audit finds, in the words of the auditor.
use wgrd_mod_manager.Common.{
  ℕ, suc, ◌+◌, ◌%◌, ◌^◌, ◌≡◌, refl, sym, ap, ap₂, ◌∙◌, inl, inr, Bool, true, false, not, List, [],
  ◌∷◌, ◌++◌, map, append-nil, append_assoc, arith, ◌==◌, Bool-cases, length, any, keep, Bytes,
}
use wgrd_mod_manager.Domain.Manifest.{ManifestChunk, ManifestFile, ModManifest}
use wgrd_mod_manager.Install.Plan.{FilePlan}
use wgrd_mod_manager.Install.Auditor.{
  Audit, no_damage, IInstalled, content_of, is_present, placement_of, audit_chunks, examine_file,
  examine_files, examine,
}

module _ (i : IInstalled) (mod_folder : Bytes) where
  -- a chunk that the audit does not find in its file
  abbrev pub lacks : ManifestFile → ManifestChunk → Bool
  lacks f c = not (is_present i mod_folder (content_of i mod_folder f) c)

  abbrev pub lacks_any : ManifestFile → Bool
  lacks_any f = any (lacks f) f.chunks

  -- the plan that is made for a file
  abbrev pub repair_of : ManifestFile → FilePlan
  repair_of f = record {
    path = f.path;
    size = f.size;
    placements =
        map (λ c. placement_of i mod_folder (i.join mod_folder f.path) (not (lacks f c)) c)
          f.chunks;
  }

  abbrev pub lacking_chunks : List ManifestFile → ℕ
  lacking_chunks [] = 0
  lacking_chunks (f ∷ files) = length (keep (lacks f) f.chunks) + lacking_chunks files

  audit_chunks_lem :
      (f : ManifestFile) (file : Bytes) (verified : ℕ) (chunks : List ManifestChunk)
      → ((audit_chunks i mod_folder (content_of i mod_folder f) file verified chunks).0
          ≡ map (λ c. placement_of i mod_folder file (not (lacks f c)) c) chunks)
        × ((audit_chunks i mod_folder (content_of i mod_folder f) file verified chunks).1.0
            ≡ length (keep (lacks f) chunks))
  unfolding audit_chunks
  audit_chunks_lem f file verified [] = (refl, refl)
  audit_chunks_lem f file verified (c ∷ chunks) =
      elim (Bool-cases (is_present i mod_folder (content_of i mod_folder f) c)) [
        | inl h ↦
            let (p, d) = audit_chunks_lem f file ((verified + c.length) % 2 ^ 64) chunks in
            (rw (h, audit_chunks) (ap₂ (◌∷◌) refl p), rw (h, audit_chunks) d)
        | inr h ↦
            let (p, d) = audit_chunks_lem f file verified chunks in
            (rw (h, audit_chunks) (ap₂ (◌∷◌) refl p), rw (h, audit_chunks) (ap suc d))
      ]

  length-keep-any :
      {A : Type 0} (p : A → Bool) (xs : List A) → (length (keep p xs) == 0) ≡ not (any p xs)
  length-keep-any p [] = refl
  length-keep-any p (x ∷ xs) = elim (Bool-cases (p x)) [
    | inl h ↦ rw h (ground arith)
    | inr h ↦ rw h (length-keep-any p xs)
  ]

  examine_file_lem :
      (audit : Audit) (f : ManifestFile)
      → ((examine_file i mod_folder audit f).damaged_files
          ≡ audit.damaged_files ++ map repair_of (keep lacks_any (f ∷ [])))
        × ((examine_file i mod_folder audit f).damaged_chunks
            ≡ audit.damaged_chunks + length (keep (lacks f) f.chunks))
  unfolding examine_file
  examine_file_lem audit f =
      let file = i.join mod_folder f.path in
      let (p, d) = audit_chunks_lem f file audit.verified_bytes f.chunks in
      let z = length-keep-any (lacks f) f.chunks in
      elim (Bool-cases (lacks_any f)) [
        | inl h ↦
            let some_damage : (length (keep (lacks f) f.chunks) == 0) ≡ false = z ∙ rw h refl in
            (rw h (rw d (rw some_damage (rw p refl))), rw d (rw some_damage refl))
        | inr h ↦
            let none_left : (length (keep (lacks f) f.chunks) == 0) ≡ true = z ∙ rw h refl in
            (
              rw h (rw d (rw none_left (sym (append-nil audit.damaged_files)))),
              rw d (rw none_left (ground (arith, none_left))),
            )
      ]

  keep-append_one :
      (f : ManifestFile) (files : List ManifestFile) (before : List FilePlan)
      → (before ++ map repair_of (keep lacks_any (f ∷ []))) ++ map repair_of (keep lacks_any files)
        ≡ before ++ map repair_of (keep lacks_any (f ∷ files))
  keep-append_one f files before = elim (Bool-cases (lacks_any f)) [
    | inl h ↦ rw h (append_assoc before (repair_of f ∷ []) (map repair_of (keep lacks_any files)))
    | inr h ↦ rw h (ap (λ xs. xs ++ map repair_of (keep lacks_any files)) (append-nil before))
  ]

  examine_files_lem :
      (audit : Audit) (files : List ManifestFile)
      → ((examine_files i mod_folder audit files).damaged_files
          ≡ audit.damaged_files ++ map repair_of (keep lacks_any files))
        × ((examine_files i mod_folder audit files).damaged_chunks
            ≡ audit.damaged_chunks + lacking_chunks files)
  unfolding examine_files
  examine_files_lem audit [] = (sym (append-nil audit.damaged_files), omega arith)
  examine_files_lem audit (f ∷ files) =
      let (p, d) = examine_file_lem audit f in
      let (q, e) = examine_files_lem (examine_file i mod_folder audit f) files in
      (
        q
            ∙ ap (λ xs. xs ++ map repair_of (keep lacks_any files)) p
            ∙ keep-append_one f files audit.damaged_files,
        omega (arith, d, e),
      )

  pub examine_found :
      (m : ModManifest)
      → ((examine i mod_folder m).damaged_files ≡ map repair_of (keep lacks_any m.files))
        × ((examine i mod_folder m).damaged_chunks ≡ lacking_chunks m.files)
  unfolding examine
  examine_found m = let (p, d) = examine_files_lem no_damage m.files in (p, omega (arith, d))
