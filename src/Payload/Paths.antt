-- ===== src/Payload/Paths.antt =====
-- src/manager/payload/PayloadPathPolicy: the paths that a release may have. `std::toupper` is that
-- of the C locale.
mod Checked
pub mod Safe
use wgrd_mod_manager.Common.{
  ℕ, ◌-◌, Bool, false, not, ◌&&◌, ◌||◌, List, [], ◌∷◌, map, leb, ◌==◌, if◌then◌else◌, length,
  get_or, drop, any, Bytes, codes, same, Result, ok, err, ◌>>◌, demand, pieces_of,
}

pub data PayloadPathError : Type 0 where
  empty too_long absolute traversal alternate_stream control_character empty_component
        trailing_dot_or_space reserved_device_name extension_not_allowed metadata_out_of_place :
      PayloadPathError

abbrev pub path_limit : ℕ
path_limit = 240

abbrev pub metadata_name : Bytes
metadata_name = codes "mod.json"

abbrev pub payload_extension : Bytes
payload_extension = codes ".dat"

-- `ExtensionPackageContract::FILE_NAME`
abbrev pub extension_file_name : Bytes
extension_file_name = codes "blacktearemos_extensions.dll"

abbrev pub reserved_names : List Bytes
reserved_names =
    codes "CON"
    ∷ codes "PRN"
    ∷ codes "AUX"
    ∷ codes "NUL"
    ∷ codes "COM1"
    ∷ codes "COM2"
    ∷ codes "COM3"
    ∷ codes "COM4"
    ∷ codes "COM5"
    ∷ codes "COM6"
    ∷ codes "COM7"
    ∷ codes "COM8"
    ∷ codes "COM9"
    ∷ codes "LPT1"
    ∷ codes "LPT2"
    ∷ codes "LPT3"
    ∷ codes "LPT4"
    ∷ codes "LPT5"
    ∷ codes "LPT6"
    ∷ codes "LPT7"
    ∷ codes "LPT8"
    ∷ codes "LPT9"
    ∷ []

unfoldable pub to_upper : Bytes → Bytes
to_upper text = map (λ c. if leb b'a' c && leb c b'z' then c - 32 else c) text

-- up to the first dot
unfoldable pub stem_of : Bytes → Bytes
stem_of [] = []
stem_of (c ∷ text) = if c == b'.' then [] else c ∷ stem_of text

unfoldable pub is_reserved_device_name : Bytes → Bool
is_reserved_device_name component =
    let upper = to_upper (stem_of component) in any (λ name. same name upper) reserved_names

unfoldable pub has_payload_extension : Bytes → Bool
has_payload_extension component =
    let tail = drop (length component - length payload_extension) component in
    if leb (length component) (length payload_extension)
    then false
    else same (to_upper tail) (to_upper payload_extension)

abbrev pub last_of : {A : Type 0} → List A → A → A
last_of [] d = d
last_of (x ∷ []) d = x
last_of (x ∷ y ∷ xs) d = last_of (y ∷ xs) d

unfoldable pub validate_component : Bytes → Result PayloadPathError (Unit {0})
validate_component component = do
  demand (not (length component == 0)) empty_component
  demand (not (same component (codes ".") || same component (codes ".."))) traversal
  demand (not (last_of component 0 == b'.' || last_of component 0 == b' ')) trailing_dot_or_space
  demand (not (is_reserved_device_name component)) reserved_device_name

unfoldable pub validate_components : List Bytes → Result PayloadPathError (Unit {0})
validate_components [] = ok tt
validate_components (c ∷ components) = validate_component c >> validate_components components

-- the loop over the characters
unfoldable pub check_characters : Bytes → Result PayloadPathError (Unit {0})
check_characters [] = ok tt
check_characters (c ∷ text) = do
  demand (leb 32 c) control_character
  demand (not (c == b':')) alternate_stream
  check_characters text

-- `std::replace` of backslashes
unfoldable pub to_slashes : Bytes → Bytes
to_slashes path = map (λ c. if c == 92 then b'/' else c) path

-- what `Normalise` decides by the last component
unfoldable pub name_of : Bytes → List Bytes → Result PayloadPathError Bytes
name_of normalised components =
    let leaf = last_of components [] in
    if same (to_upper leaf) (to_upper extension_file_name)
    then (if length components == 1 then ok extension_file_name else err extension_not_allowed)
    else if same (to_upper leaf) (to_upper metadata_name)
    then (if length components == 1 then ok normalised else err metadata_out_of_place)
    else if has_payload_extension leaf
    then ok normalised
    else err extension_not_allowed

-- `Normalise` behind the replacement
unfoldable pub judge_path : Bytes → Result PayloadPathError Bytes
judge_path normalised = do
  check_characters normalised
  demand (not (get_or normalised 0 0 == b'/')) absolute
  validate_components (pieces_of b'/' normalised)
  name_of normalised (pieces_of b'/' normalised)

unfoldable pub normalise : Bytes → Result PayloadPathError Bytes
normalise path = do
  demand (not (length path == 0)) empty
  demand (leb (length path) path_limit) too_long
  judge_path (to_slashes path)
