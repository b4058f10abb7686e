-- ===== src/Storage/Paths.antt =====
-- `std::filesystem::path` as the list of its elements, which its `==` and its iterators go over.
use wgrd_mod_manager.Common.{
  ◌≡◌, refl, ap₂, ◌↔◌, Bool, true, false, ◌&&◌, List, [], ◌∷◌, ◌++◌, arith, Bytes, same, same_iff,
  same_refl,
}

abbrev pub FilePath : Type 0
FilePath = List Bytes

unfoldable pub same_path : FilePath → FilePath → Bool
same_path [] [] = true
same_path [] (q ∷ qs) = false
same_path (p ∷ ps) [] = false
same_path (p ∷ ps) (q ∷ qs) = same p q && same_path ps qs

pub same_path_iff : (a b : FilePath) → (same_path a b ≡ true) ↔ (a ≡ b)
unfolding same_path
same_path_iff [] [] = ground arith
same_path_iff [] (q ∷ b) = ground arith
same_path_iff (p ∷ a) [] = ground arith
same_path_iff (p ∷ a) (q ∷ b) = ground (arith, same_iff p q, same_path_iff a b)

-- `UnderFolder` of ChunkLocator.cpp: the elements of the folder come first in the file's
unfoldable pub under_folder : FilePath → FilePath → Bool
under_folder file [] = true
under_folder [] (q ∷ folder) = false
under_folder (p ∷ file) (q ∷ folder) = same p q && under_folder file folder

under_folder_iff :
    (file folder : FilePath)
    → under_folder file folder ≡ true
    → (rest : FilePath) × (file ≡ folder ++ rest)
unfolding under_folder
under_folder_iff file [] h = (file, refl)
under_folder_iff [] (q ∷ folder) h = absurd (ground arith)
under_folder_iff (p ∷ file) (q ∷ folder) h =
    let (rest, e) = under_folder_iff file folder (ground arith) in
    let first : p ≡ q = ground (arith, same_iff p q) in (rest, ap₂ (◌∷◌) first e)

under_folder-append : (folder rest : FilePath) → under_folder (folder ++ rest) folder ≡ true
unfolding under_folder
under_folder-append [] rest = refl
under_folder-append (q ∷ folder) rest = ground (arith, same_refl q, under_folder-append folder rest)
