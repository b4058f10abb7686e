-- ===== src/Install/Auditor/Report.antt =====
-- What the report of an audit says of the files on the disk.
use wgrd_mod_manager.Payload.Paths.{extension_file_name}
use wgrd_mod_manager.Common.{
  ℕ, ◌+◌, ◌%◌, ◌^◌, ◌≡◌, refl, ap, subst, ◌∙◌, inl, inr, Bool, true, not, ◌&&◌, ◌||◌, none, some,
  List, [], ◌∷◌, map, arith, leb, ◌==◌, if◌then◌else◌, Bool-cases, Option-cases, length, take, drop,
  any, keep, Bytes, codes, same,
}
use wgrd_mod_manager.Domain.Manifest.{ManifestChunk, ManifestFile, ModManifest}
use wgrd_mod_manager.Install.Plan.{held, remote, ChunkPlacement, FilePlan}
use wgrd_mod_manager.Install.Auditor.{IInstalled, content_of, is_present, placement_of, examine}
use wgrd_mod_manager.Install.Auditor.Damage.{
  lacks, lacks_any, repair_of, lacking_chunks, examine_found,
}
use mathlib.Core.Path.{fun_ext}

-- A test of the files' chunks, and what follows from it: the damaged files, the plan that mends one,
-- and the number of chunks that are missing.
module _ (p : ManifestFile → ManifestChunk → Bool) where
  abbrev pub is_damaged : ManifestFile → Bool
  is_damaged f = any (p f) f.chunks

  abbrev pub missing_chunks : List ManifestFile → ℕ
  missing_chunks [] = 0
  missing_chunks (f ∷ files) = length (keep (p f) f.chunks) + missing_chunks files

  -- What is missing is fetched, and the rest is at hand in the installed file, in its place.
  abbrev pub mended : Bytes → ManifestFile → ManifestChunk → ChunkPlacement
  mended file f c =
      if p f c
      then record {
        digest = c.digest;
        target_offset = c.offset;
        length = c.length;
        source = remote;
        held_file = [];
        held_offset = 0;
      }
      else record {
        digest = c.digest;
        target_offset = c.offset;
        length = c.length;
        source = held;
        held_file = file;
        held_offset = c.offset;
      }

  abbrev pub mending_of : Bytes → ManifestFile → FilePlan
  mending_of file f = record {
    path = f.path;
    size = f.size;
    placements = map (mended file f) f.chunks;
  }

module _ (i : IInstalled) (mod_folder : Bytes) where
  -- The content has the file's size, the extension's file is approved, the chunk ends, in 64 bits,
  -- inside the content, and the octets of its range have its digest.
  abbrev pub has_chunk : ManifestFile → ManifestChunk → Bytes → Bool
  has_chunk f c content =
      (not (same f.path (codes "blacktearemos_extensions.dll")) || i.verifies content)
      && length content == f.size
      && leb ((c.offset + c.length) % 2 ^ 64) (length content)
      && same (i.hash (take c.length (drop c.offset content))) c.digest

  -- a chunk that is not in its installed file as the manifest says
  abbrev pub is_missing : ManifestFile → ManifestChunk → Bool
  is_missing f c = elim (i.open_file (i.join mod_folder f.path)) [
    | none ↦ true
    | some content ↦ not (has_chunk f c content)
  ]

  lacks-is_missing :
      (f : ManifestFile) (c : ManifestChunk) → lacks i mod_folder f c ≡ is_missing f c
  unfolding content_of is_present
  lacks-is_missing f c = elim (Option-cases (i.open_file (i.join mod_folder f.path))) [
    | inl e ↦ rw (e, content_of, is_missing) refl
    | inr (content, e) ↦
        elim (Bool-cases (
          (not (same f.path extension_file_name) || i.verifies content)
          && length content == f.size)) [
            | inl g ↦ rw (e, content_of, is_missing) (rw (g, is_present) (ground (arith, g)))
            | inr g ↦ rw (e, content_of, is_missing) (rw (g, is_present) (ground (arith, g)))
          ]
  ]

  placement_of-mended :
      (f : ManifestFile) (file : Bytes) (c : ManifestChunk)
      → placement_of i mod_folder file (not (lacks i mod_folder f c)) c
        ≡ mended (lacks i mod_folder) file f c
  unfolding placement_of
  placement_of-mended f file c = elim (Bool-cases (lacks i mod_folder f c)) [
    | inl e ↦ rw e refl
    | inr e ↦ rw e refl
  ]

  repair_of-mending_of :
      (f : ManifestFile)
      → repair_of i mod_folder f ≡ mending_of (lacks i mod_folder) (i.join mod_folder f.path) f
  repair_of-mending_of f =
      ap
        (λ (g : ManifestChunk → ChunkPlacement). record {
          path = f.path;
          size = f.size;
          placements = map g f.chunks;
        })
        (fun_ext (placement_of-mended f (i.join mod_folder f.path)))

  lacking_missing :
      (files : List ManifestFile)
      → lacking_chunks i mod_folder files ≡ missing_chunks (lacks i mod_folder) files
  lacking_missing [] = refl
  lacking_missing (f ∷ files) =
      ap (λ n. length (keep (lacks i mod_folder f) f.chunks) + n) (lacking_missing files)

  -- what the report of a mod says, by a test of the chunks
  abbrev pub Reports : (ManifestFile → ManifestChunk → Bool) → ModManifest → Type 0
  Reports p m =
      ((examine i mod_folder m).damaged_files
        ≡ map (λ f. mending_of p (i.join mod_folder f.path) f) (keep (is_damaged p) m.files))
      × ((examine i mod_folder m).damaged_chunks ≡ missing_chunks p m.files)

  examine-lacks : (m : ModManifest) → Reports (lacks i mod_folder) m
  examine-lacks m =
      let (p, d) = examine_found i mod_folder m in
      (
        p
            ∙ ap (λ (g : ManifestFile → FilePlan). map g (keep (lacks_any i mod_folder) m.files))
                (fun_ext repair_of-mending_of),
        d ∙ lacking_missing m.files,
      )

  -- The damaged files that an audit reports are, in the manifest's order, just those with a chunk that
  -- is missing: whose file does not open, has not the manifest's size, is the extension's and not
  -- approved, ends before the chunk does (that end taken modulo 2^64), or has not the chunk's digest
  -- in its range; each with the plan that mends it, in which
  -- the missing chunks are to be fetched and the others are held in the file itself. The chunks
  -- counted as damaged are all those that are missing.
  pub examine_lem :
      (m : ModManifest)
      → ((examine i mod_folder m).damaged_files
          ≡ map
              (λ f. mending_of is_missing (i.join mod_folder f.path) f)
              (keep (is_damaged is_missing) m.files))
        × ((examine i mod_folder m).damaged_chunks ≡ missing_chunks is_missing m.files)
  examine_lem m =
      subst (λ p. Reports p m) (fun_ext λ f. fun_ext (lacks-is_missing f)) (examine-lacks m)
