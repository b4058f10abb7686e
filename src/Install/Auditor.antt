-- ===== src/Install/Auditor.antt =====
-- src/manager/install/InstalledContentAuditor: the installed files against the manifest. The hash,
-- the files that can be mapped, the join of a folder and a path, and the verifier of the signed
-- extension are arguments.
pub mod Damage
pub mod Report
pub mod Intact
use wgrd_mod_manager.Common.{
  ℕ, suc, ◌+◌, ◌%◌, ◌^◌, Bool, false, not, ◌&&◌, ◌||◌, Option, none, some, List, [], ◌∷◌, ◌++◌, leb,
  ◌==◌, if◌then◌else◌, length, Bytes, same,
}
use wgrd_mod_manager.Domain.Manifest.{ManifestChunk, ManifestFile, ModManifest}
use wgrd_mod_manager.Chunk.Lister.{subspan}
use wgrd_mod_manager.Payload.Paths.{extension_file_name}
use wgrd_mod_manager.Install.Plan.{held, remote, ChunkPlacement, FilePlan}

pub record Audit : Type 0 where
  pub verified_bytes : ℕ
  pub damaged_chunks : ℕ
  pub damaged_files : List FilePlan

abbrev pub no_damage : Audit
no_damage = record { verified_bytes = 0; damaged_chunks = 0; damaged_files = [] }

-- `MappedFile::Open`, and `SignedExtensionVerifier::Verify` of the octets
pub record IInstalled : Type 0 where
  pub open_file : Bytes → Option Bytes
  pub verifies : Bytes → Bool
  pub join : Bytes → Bytes → Bytes
  pub hash : Bytes → Bytes

module _ (i : IInstalled) (mod_folder : Bytes) where
  -- the content of a file that is readable
  unfoldable pub content_of : ManifestFile → Option Bytes
  content_of f = elim (i.open_file (i.join mod_folder f.path)) [
    | none ↦ none
    | some content ↦
        if (not (same f.path extension_file_name) || i.verifies content) && length content == f.size
        then some content
        else none
  ]

  unfoldable pub is_present : Option Bytes → ManifestChunk → Bool
  is_present none c = false
  is_present (some content) c =
      leb ((c.offset + c.length) % 2 ^ 64) (length content)
      && same (i.hash (subspan content c.offset c.length)) c.digest

  unfoldable pub placement_of : Bytes → Bool → ManifestChunk → ChunkPlacement
  placement_of file present c = record {
    digest = c.digest;
    target_offset = c.offset;
    length = c.length;
    source = if present then held else remote;
    held_file = if present then file else [];
    held_offset = if present then c.offset else 0;
  }

  -- the inner loop of `Examine`: the placements, the damage and the bytes verified so far
  unfoldable pub audit_chunks :
      Option Bytes → Bytes → ℕ → List ManifestChunk → List ChunkPlacement × (ℕ × ℕ)
  audit_chunks content file verified [] = ([], (0, verified))
  audit_chunks content file verified (c ∷ chunks) =
      let present = is_present content c in
      let verified' = if present then (verified + c.length) % 2 ^ 64 else verified in
      let (placements, (damage, total)) = audit_chunks content file verified' chunks in
      (placement_of file present c ∷ placements, (if present then damage else suc damage, total))

  -- a turn of the outer loop
  unfoldable pub examine_file : Audit → ManifestFile → Audit
  examine_file audit f =
      let file = i.join mod_folder f.path in
      let (placements, (damage, verified)) =
        audit_chunks (content_of f) file audit.verified_bytes f.chunks in
      if damage == 0 then record audit { verified_bytes = verified } else record {
        verified_bytes = verified;
        damaged_chunks = audit.damaged_chunks + damage;
        damaged_files =
            audit.damaged_files
            ++ record { path = f.path; size = f.size; placements = placements } ∷ [];
      }

  unfoldable pub examine_files : Audit → List ManifestFile → Audit
  examine_files audit [] = audit
  examine_files audit (f ∷ files) = examine_files (examine_file audit f) files

  unfoldable pub examine : ModManifest → Audit
  examine m = examine_files no_damage m.files
