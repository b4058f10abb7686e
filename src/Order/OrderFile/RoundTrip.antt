-- ===== src/Order/OrderFile/RoundTrip.antt =====
-- What is read back from an order file.
use wgrd_mod_manager.Order.OrderFile.{
  line_ending, header_first, header_second, serialize_folders, serialize, strip_line_ending,
  is_ignored_line, parse_lines, parse,
}
use wgrd_mod_manager.Order.InstallFolder.{parse_folder, OrderEntry, LoadOrder, enabled_folders}
use wgrd_mod_manager.Common.{
  ◌≡◌, refl, sym, ap, ◌∙◌, true, false, List, [], ◌∷◌, ◌++◌, map, append_assoc, arith, All, Bytes,
  ok, ◌>>=◌, pieces_of, contains, pieces_of-append,
}

-- A folder as `InstallFolder` makes it, with no line feed in it.
abbrev pub IsPlainFolder : Bytes → Type 0
IsPlainFolder folder = (parse_folder folder ≡ ok folder) × (contains 10 folder ≡ false)

abbrev pub enabled_entry : Bytes → OrderEntry
enabled_entry folder = record { folder = folder; enabled = true }

strip_line_ending-append : (line : Bytes) → strip_line_ending (line ++ 13 ∷ []) ≡ line
unfolding strip_line_ending
strip_line_ending-append [] = refl
strip_line_ending-append (c ∷ []) = refl
strip_line_ending-append (c ∷ d ∷ line) = ap (◌∷◌ c) (strip_line_ending-append (d ∷ line))

contains-return : (line : Bytes) → contains 10 line ≡ false → contains 10 (line ++ 13 ∷ []) ≡ false
contains-return [] h = refl
contains-return (c ∷ line) h = ground (arith, contains-return line)

-- a line of the file, cut off
pieces_of-line :
    (line rest : Bytes)
    → contains 10 line ≡ false
    → pieces_of 10 (line ++ (line_ending ++ rest)) ≡ (line ++ 13 ∷ []) ∷ pieces_of 10 rest
pieces_of-line line rest h =
    ap (pieces_of 10) (sym (append_assoc line (13 ∷ []) (10 ∷ rest)))
    ∙ pieces_of-append 10 (line ++ 13 ∷ []) rest (contains-return line h)

parse_folder-unignored :
    (folder : Bytes) → parse_folder folder ≡ ok folder → is_ignored_line folder ≡ false
unfolding parse_folder is_ignored_line
parse_folder-unignored folder h = ground arith

parse_lines-folder :
    (folder : Bytes) (lines : List Bytes)
    → parse_folder folder ≡ ok folder
    → parse_lines ((folder ++ 13 ∷ []) ∷ lines)
      ≡ (parse_lines lines >>= λ entries. ok (enabled_entry folder ∷ entries))
unfolding parse_lines
parse_lines-folder folder lines h =
    rw (strip_line_ending-append folder, parse_lines)
      (rw (parse_folder-unignored folder h) (rw h refl))

parse_lines-comment :
    (line : Bytes) (lines : List Bytes)
    → is_ignored_line line ≡ true
    → parse_lines ((line ++ 13 ∷ []) ∷ lines) ≡ parse_lines lines
unfolding parse_lines
parse_lines-comment line lines h = rw (strip_line_ending-append line, parse_lines) (rw h refl)

parse_lines-end : parse_lines (pieces_of 10 []) ≡ ok []
unfolding pieces_of parse_lines strip_line_ending is_ignored_line
parse_lines-end = refl

parse_lines-header :
    (line rest : Bytes)
    → contains 10 line ≡ false
    → is_ignored_line line ≡ true
    → parse_lines (pieces_of 10 (line ++ (line_ending ++ rest))) ≡ parse_lines (pieces_of 10 rest)
parse_lines-header line rest h i =
    ap parse_lines (pieces_of-line line rest h) ∙ parse_lines-comment line _ i

header_first-ignored : is_ignored_line header_first ≡ true
unfolding is_ignored_line
header_first-ignored = refl

header_second-ignored : is_ignored_line header_second ≡ true
unfolding is_ignored_line
header_second-ignored = refl

parse_lines-serialize_folders :
    (folders : List Bytes)
    → All IsPlainFolder folders
    → parse_lines (pieces_of 10 (serialize_folders folders)) ≡ ok (map enabled_entry folders)
unfolding serialize_folders
parse_lines-serialize_folders [] h = parse_lines-end
parse_lines-serialize_folders (folder ∷ folders) h =
    ap parse_lines (pieces_of-line folder (serialize_folders folders) h.0.1)
    ∙ parse_lines-folder folder _ h.0.0
    ∙ ap (λ m. m >>= λ entries. ok (enabled_entry folder ∷ entries))
        (parse_lines-serialize_folders folders h.1)

-- An order file that was written for folders without line feeds reads back as the enabled folders,
-- in their order: the comments at its head and the disabled entries are not there.
pub parse-serialize :
    (order : LoadOrder)
    → All IsPlainFolder (enabled_folders order)
    → parse (serialize order) ≡ ok (record { entries = map enabled_entry (enabled_folders order) })
unfolding parse serialize
parse-serialize order h =
    ap (λ m. m >>= λ entries. ok (record { entries = entries }))
      (parse_lines-header header_first _ refl header_first-ignored
        ∙ parse_lines-header header_second _ refl header_second-ignored
        ∙ parse_lines-serialize_folders (enabled_folders order) h)
