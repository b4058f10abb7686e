-- ===== src/Domain/ChunkFileNaming.antt =====
-- src/domain/types/content/ChunkFileNaming.h: a chunk's file is named by its digest.
use wgrd_mod_manager.Common.{
  ℕ, ◌-◌, ◌≡◌, refl, Bool, true, false, ◌&&◌, ◌||◌, [], ◌∷◌, ◌++◌, arith, leb, ◌==◌, if◌then◌else◌,
  length, take, drop, any, Bytes, codes, same,
}
use wgrd_mod_manager.Domain.FixedBytes.{to_hex}

abbrev pub suffix : Bytes
suffix = codes ".chunk"

abbrev pub manifest_file : Bytes
manifest_file = codes "manifest.wgrdm"

abbrev pub is_separator : ℕ → Bool
is_separator c = c == b'/' || c == 92

unfoldable pub file_name_for : Bytes → Bytes
file_name_for digest = to_hex digest ++ suffix

-- what stands behind the last separator, if there is one
unfoldable pub leaf_of : Bytes → Bytes
leaf_of [] = []
leaf_of (c ∷ name) =
    let leaf = leaf_of name in
    if any is_separator name then leaf else if is_separator c then name else c ∷ name

unfoldable pub digest_from_file_name : Bytes → Bytes
digest_from_file_name name =
    let leaf = leaf_of name in
    let stem = length leaf - length suffix in
    if leb (length suffix) (length leaf) && same (drop stem leaf) suffix then take stem leaf else []

leaf_of-separator :
    (folder name : Bytes) → any is_separator name ≡ false → leaf_of (folder ++ b'/' ∷ name) ≡ name
unfolding leaf_of
leaf_of-separator [] name h = ground arith
leaf_of-separator (c ∷ folder) name h =
    ground (arith, leaf_of-separator folder name h, any-behind folder name)
  where
    any-behind : (folder name : Bytes) → any is_separator (folder ++ b'/' ∷ name) ≡ true
    any-behind [] name = refl
    any-behind (c ∷ folder) name = ground (arith, any-behind folder name)

leaf_of_plain : (name : Bytes) → any is_separator name ≡ false → leaf_of name ≡ name
unfolding leaf_of
leaf_of_plain [] h = refl
leaf_of_plain (c ∷ name) h = ground arith
