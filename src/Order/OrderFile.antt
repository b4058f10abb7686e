-- ===== src/Order/OrderFile.antt =====
-- src/manager/order/OrderFileGateway: the text of the order file. Reading and writing the file
-- itself are not modelled.
pub mod RoundTrip
use wgrd_mod_manager.Common.{
  ◌-◌, Bool, true, ◌||◌, List, [], ◌∷◌, ◌++◌, ◌==◌, if◌then◌else◌, length, Bytes, codes, Result, ok,
  err, ◌>>=◌, ◌>>◌, pieces_of,
}
use wgrd_mod_manager.Order.InstallFolder.{
  front, parse_folder, OrderEntry, LoadOrder, enabled_folders,
}

pub data OrderFileError : Type 0 where
  not_found read_failed write_failed rename_failed malformed_entry : OrderFileError

abbrev pub line_ending : Bytes
line_ending = 13 ∷ 10 ∷ []

abbrev pub header_first : Bytes
header_first = codes "# Wargame Red Dragon mod load order - one mod folder per line."

abbrev pub header_second : Bytes
header_second = codes "# Later entries OVERRIDE earlier ones. '#' comments, blanks ignored."

-- the loop of `Serialize`
unfoldable pub serialize_folders : List Bytes → Bytes
serialize_folders [] = []
serialize_folders (folder ∷ folders) = folder ++ (line_ending ++ serialize_folders folders)

unfoldable pub serialize : LoadOrder → Bytes
unfolding serialize_folders enabled_folders
serialize order =
    header_first
    ++ (line_ending
        ++ (header_second ++ (line_ending ++ serialize_folders (enabled_folders order))))

-- `StripLineEnding_`
unfoldable pub strip_line_ending : Bytes → Bytes
strip_line_ending [] = []
strip_line_ending (c ∷ []) = if c == 13 then [] else c ∷ []
strip_line_ending (c ∷ d ∷ line) = c ∷ strip_line_ending (d ∷ line)

unfoldable pub is_ignored_line : Bytes → Bool
is_ignored_line line = length line == 0 || front line == b'#'

-- the body of the loop of `Parse` over the lines
unfoldable pub parse_lines : List Bytes → Result OrderFileError (List OrderEntry)
unfolding strip_line_ending is_ignored_line parse_folder
parse_lines [] = ok []
parse_lines (line ∷ lines) =
    let rest = parse_lines lines in
    if is_ignored_line (strip_line_ending line)
    then rest
    else elim (parse_folder (strip_line_ending line)) [
      | err e ↦ err malformed_entry
      | ok folder ↦ do entries ← rest; ok (record { folder = folder; enabled = true } ∷ entries)
    ]

unfoldable pub parse : Bytes → Result OrderFileError LoadOrder
unfolding parse_lines
parse contents = do entries ← parse_lines (pieces_of 10 contents); ok (record { entries = entries })
