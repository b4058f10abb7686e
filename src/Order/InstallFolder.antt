-- ===== src/Order/InstallFolder.antt =====
-- src/domain/types/order/InstallFolder and LoadOrder.
use wgrd_mod_manager.Common.{
  ℕ, Bool, ◌||◌, List, [], ◌∷◌, ◌==◌, if◌then◌else◌, length, get_or, keep, Bytes, codes, same,
  Result, ok, err, contains,
}

pub data InstallFolderError : Type 0 where
  empty path_separator comment_marker leading_whitespace trailing_whitespace hidden_folder
        relative_marker :
      InstallFolderError

-- `front` and `back`, of a text that is not empty
abbrev pub front : Bytes → ℕ
front text = get_or text 0 0

abbrev pub back : Bytes → ℕ
back [] = 0
back (c ∷ []) = c
back (c ∷ d ∷ text) = back (d ∷ text)

abbrev pub is_blank : ℕ → Bool
is_blank c = c == b' ' || c == 9

-- `InstallFolder::Parse`
unfoldable pub parse_folder : Bytes → Result InstallFolderError Bytes
parse_folder text =
    if length text == 0
    then err empty
    else if front text == b'#'
    then err comment_marker
    else if is_blank (front text)
    then err leading_whitespace
    else if is_blank (back text)
    then err trailing_whitespace
    else if contains b'/' text || contains 92 text
    then err path_separator
    else if same text (codes ".") || same text (codes "..")
    then err relative_marker
    else if front text == b'.'
    then err hidden_folder
    else ok text

pub record OrderEntry : Type 0 where
  pub folder : Bytes
  pub enabled : Bool

pub record LoadOrder : Type 0 where
  pub entries : List OrderEntry

unfoldable pub enabled_from : List OrderEntry → List Bytes
enabled_from [] = []
enabled_from (e ∷ entries) =
    let rest = enabled_from entries in if e.enabled then e.folder ∷ rest else rest

unfoldable pub enabled_folders : LoadOrder → List Bytes
enabled_folders order = enabled_from order.entries

unfoldable pub enabled_count : LoadOrder → ℕ
enabled_count order = length (keep (λ e. e.enabled) order.entries)
