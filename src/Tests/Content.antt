-- ===== src/Tests/Content.antt =====
-- Chunks, plans, folders, paths and the fetch.

use wgrd_mod_manager.Tests.Data.{publisher, octets, are_bytes}
use wgrd_mod_manager.Payload.Paths.Safe.{IsSafe, normalise-IsSafe}
use wgrd_mod_manager.Payload.Paths.{
  to_upper, stem_of, is_reserved_device_name, has_payload_extension, validate_component,
  validate_components, check_characters, to_slashes, name_of, judge_path, normalise,
}
use wgrd_mod_manager.Domain.Manifest.{ManifestFile, ModManifest, HeldChunkLocation}
use wgrd_mod_manager.Install.Differ.Coverage.{
  is_listed, is_installed, IsDelivered, is_installed-diff,
}
use wgrd_mod_manager.Common.{
  ℕ, ◌*◌, ◌≡◌, refl, true, false, Option, none, List, [], ◌∷◌, ◌++◌, map, arith, length, All, Bytes,
  codes, same, ok, pieces_of,
}
use wgrd_mod_manager.Chunk.Sizes.{ChunkSizes}
use wgrd_mod_manager.Chunk.Chunker.{split}
use wgrd_mod_manager.Chunk.Chunker.Cover.{Tiles, IsSized, split-Tiles}
use wgrd_mod_manager.Install.Differ.{diff}
use wgrd_mod_manager.Install.Differ.Sound.{AreDigests, IsSourced, diff-IsSourced}
use wgrd_mod_manager.Order.InstallFolder.{parse_folder, LoadOrder, enabled_from, enabled_folders}
use wgrd_mod_manager.Order.OrderFile.{serialize, parse}
use wgrd_mod_manager.Order.OrderFile.RoundTrip.{IsPlainFolder, enabled_entry, parse-serialize}
use wgrd_mod_manager.Transfer.FetchState.{initial}
use wgrd_mod_manager.Transfer.FetchState.Removal.{
  IsConsistent, Call, reserves, adopts, retires, confirms, run, run-IsConsistent,
}

abbrev sizes : ChunkSizes
sizes = record { minimum = 2; average = 4; maximum = 8; small_mask_bits = 4; large_mask_bits = 1 }

-- a gear table
abbrev gear : ℕ → ℕ
gear b = b * 7

split-Tiles_example :
    Tiles 0 (length (octets 20 9)) (split gear sizes (octets 20 9))
    × All (IsSized sizes (length (octets 20 9))) (split gear sizes (octets 20 9))
split-Tiles_example =
    split-Tiles gear sizes (octets 20 9)
      (record { minimum_positive = omega arith; below = omega arith; above = omega arith })

abbrev join : Bytes → Bytes → Bytes
join root path = root ++ (b'/' ∷ path)

-- a file of one chunk
abbrev file : ℕ → ManifestFile
file c = record {
  path = c ∷ [];
  size = 4;
  chunks = record { digest = octets 32 c; offset = 0; length = 4 } ∷ [];
}

abbrev release_of : List ManifestFile → ModManifest
release_of files = record {
  publisher = publisher;
  mod_name = codes "abc";
  version = 1;
  files = files;
}

abbrev old_release : ModManifest
old_release = release_of (file 97 ∷ file 98 ∷ [])

abbrev new_release : ModManifest
new_release = release_of (file 98 ∷ file 99 ∷ [])

abbrev nowhere : Bytes → Option HeldChunkLocation
nowhere digest = none

is_installed-diff_example :
    (is_installed old_release (diff join old_release (codes "mods") new_release nowhere) (99 ∷ [])
      ≡ is_listed new_release.files (99 ∷ []))
    × All
        (IsDelivered old_release (diff join old_release (codes "mods") new_release nowhere))
        new_release.files
is_installed-diff_example =
    is_installed-diff join old_release (codes "mods") new_release nowhere (99 ∷ [])

diff-IsSourced_example :
    All
      (λ f. All (IsSourced join nowhere (codes "mods") old_release.files) f.placements)
      (diff join old_release (codes "mods") new_release nowhere).files
diff-IsSourced_example =
    diff-IsSourced join nowhere old_release (codes "mods") old-AreDigests new_release new-AreDigests
  where
    old-AreDigests : AreDigests old_release.files
    old-AreDigests =
        ((are_bytes (octets 32 97) refl, tt), ((are_bytes (octets 32 98) refl, tt), tt))

    new-AreDigests : AreDigests new_release.files
    new-AreDigests =
        ((are_bytes (octets 32 98) refl, tt), ((are_bytes (octets 32 99) refl, tt), tt))

abbrev order : LoadOrder
order = record {
  entries =
      record { folder = codes "one"; enabled = true }
      ∷ record { folder = codes "two"; enabled = false }
      ∷ [];
}

order-plain : All IsPlainFolder (enabled_folders order)
unfolding enabled_folders enabled_from parse_folder same
order-plain = ((refl, refl), tt)

maps-normalise : normalise (codes "maps\\a.dat") ≡ ok (codes "maps/a.dat")
unfolding normalise judge_path name_of validate_components validate_component check_characters
    to_slashes to_upper stem_of is_reserved_device_name has_payload_extension pieces_of same
maps-normalise = refl

parse-serialize_example :
    parse (serialize order) ≡ ok (record { entries = map enabled_entry (enabled_folders order) })
parse-serialize_example = parse-serialize order order-plain

normalise-IsSafe_example : IsSafe (codes "maps/a.dat")
normalise-IsSafe_example =
    normalise-IsSafe (codes "maps\\a.dat") (codes "maps/a.dat") maps-normalise

initial-IsConsistent : IsConsistent initial
initial-IsConsistent = ground arith

abbrev fetch_calls : List Call
fetch_calls =
    reserves (codes "a/b") (codes "staging") [] ∷ adopts 3 ∷ retires (λ h. true) ∷ confirms 3 ∷ []

run-IsConsistent_example : IsConsistent (run initial fetch_calls)
run-IsConsistent_example = run-IsConsistent initial fetch_calls initial-IsConsistent
