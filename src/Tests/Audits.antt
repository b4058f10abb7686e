-- ===== src/Tests/Audits.antt =====
-- A described file, and the audit of a mod.

use wgrd_mod_manager.Tests.Data.{publisher, octets}
use wgrd_mod_manager.Install.Auditor.{IInstalled, examine}
use wgrd_mod_manager.Install.Auditor.Report.{
  is_damaged, missing_chunks, mending_of, is_missing, examine_lem,
}
use wgrd_mod_manager.Common.{
  ℕ, ◌*◌, ◌≡◌, refl, true, false, none, some, [], ◌∷◌, ◌++◌, map, arith, if◌then◌else◌, take, keep,
  Bytes, codes, same,
}
use wgrd_mod_manager.Domain.Manifest.{ManifestFile, ModManifest}
use wgrd_mod_manager.Chunk.Sizes.{ChunkSizes, IsChunkSizes}
use wgrd_mod_manager.Chunk.Chunker.{split}
use wgrd_mod_manager.Chunk.Lister.{chunk_of, describe, validate_chunk_layout}
use wgrd_mod_manager.Chunk.Lister.Valid.{validate-describe}
use wgrd_mod_manager.Install.Auditor.Intact.{IsIntact, examine-IsIntact}

abbrev sizes : ChunkSizes
sizes = record { minimum = 2; average = 4; maximum = 8; small_mask_bits = 4; large_mask_bits = 1 }

sizes-IsChunkSizes : IsChunkSizes sizes
sizes-IsChunkSizes = record {
  minimum_positive = omega arith;
  below = omega arith;
  above = omega arith;
}

abbrev gear : ℕ → ℕ
gear b = b * 7

abbrev first_byte : Bytes → Bytes
first_byte content = take 1 content

abbrev content : Bytes
content = octets 9 3

validate-describe_example :
    (f : ManifestFile) × (describe first_byte gear sizes (some content) (codes "a.dat") ≡ some f)
    × (f.size ≡ 9)
    × (validate_chunk_layout f ≡ true)
validate-describe_example =
    validate-describe first_byte sizes gear content (codes "a.dat") sizes-IsChunkSizes (omega arith)
      (omega arith)

-- one installed file
abbrev installed : IInstalled
installed = record {
  open_file = λ file. if same file (codes "mods/a.dat") then some content else none;
  verifies = λ data_. false;
  join = λ folder path. folder ++ (b'/' ∷ path);
  hash = first_byte;
}

abbrev described : ManifestFile
described = record {
  path = codes "a.dat";
  size = 9;
  chunks = map (chunk_of first_byte content) (split gear sizes content);
}

abbrev audited : ModManifest
audited = record {
  publisher = publisher;
  mod_name = codes "abc";
  version = 1;
  files = described ∷ record described { path = codes "b.dat" } ∷ [];
}

examine_lem_example :
    ((examine installed (codes "mods") audited).damaged_files
      ≡ map
          (λ f.
            mending_of
              (is_missing installed (codes "mods"))
              (installed.join (codes "mods") f.path)
              f)
          (keep (is_damaged (is_missing installed (codes "mods"))) audited.files))
    × ((examine installed (codes "mods") audited).damaged_chunks
        ≡ missing_chunks (is_missing installed (codes "mods")) audited.files)
examine_lem_example = examine_lem installed (codes "mods") audited

described-IsIntact : IsIntact installed (codes "mods") gear sizes described
unfolding describe same
described-IsIntact = record {
  content = content;
  opens = refl;
  approved = refl;
  described = refl;
  length_max = omega arith;
}

examine-IsIntact_example :
    ((examine installed (codes "mods") (record audited { files = described ∷ [] })).damaged_files
      ≡ [])
    × ((examine installed (codes "mods") (record audited { files = described ∷ [] })).damaged_chunks
        ≡ 0)
examine-IsIntact_example =
    examine-IsIntact installed (codes "mods") gear sizes (record audited { files = described ∷ [] })
      sizes-IsChunkSizes (omega arith) (described-IsIntact, tt)
