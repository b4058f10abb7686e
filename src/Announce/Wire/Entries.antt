-- ===== src/Announce/Wire/Entries.antt =====
-- One entry: read after written, and what can be said of any entry that is read.
use wgrd_mod_manager.Domain.Names.{is_acceptable_mod_name}
use wgrd_mod_manager.Common.{
  ℕ, ◌+◌, ◌≡◌, refl, ◌∙◌, Bool, true, false, some, [], ◌++◌, append_assoc, arith, if◌then◌else◌,
  length, take, drop, length-append, take-append, drop-append, drop-add, Bytes,
}
use wgrd_mod_manager.Announce.Summary.{
  fingerprint_bytes, mod_name_bytes, version_bytes, AnnounceSummary, IsSummary, write_le, read_le,
  pad_mod_name, read_text,
}
use wgrd_mod_manager.Announce.Summary.Fields.{
  length-write_le, read_le-write_le, length-pad_mod_name, read_text-pad_mod_name,
}
use wgrd_mod_manager.Announce.Wire.{offer_entry_bytes, want_entry_bytes, encode_entry, read_summary}

-- A want carries no version, and is read back with version 0.
abbrev pub shown : Bool → AnnounceSummary → AnnounceSummary
shown with_version s = record s { version = if with_version then s.version else 0 }

abbrev pub entry_bytes_of : Bool → ℕ
entry_bytes_of with_version = if with_version then offer_entry_bytes else want_entry_bytes

pub length-encode_entry :
    (w : Bool) (s : AnnounceSummary) → IsSummary s → length (encode_entry w s) ≡ entry_bytes_of w
unfolding encode_entry
length-encode_entry true s v = omega (
  arith,
  v.publisher_length,
  length-append s.publisher (pad_mod_name s.mod_name ++ write_le version_bytes s.version),
  length-append (pad_mod_name s.mod_name) (write_le version_bytes s.version),
  length-pad_mod_name s.mod_name,
  length-write_le version_bytes s.version,
)
length-encode_entry false s v = omega (
  arith,
  v.publisher_length,
  length-append s.publisher (pad_mod_name s.mod_name ++ []),
  length-append {0} {A = ℕ} (pad_mod_name s.mod_name) [],
  length-pad_mod_name s.mod_name,
)

-- The reader of a summary looks at the message from its offset on only.
pub read_summary-drop :
    (w : Bool) (m : Bytes) (k : ℕ)
    → read_summary w m k (k + fingerprint_bytes) (k + fingerprint_bytes + mod_name_bytes)
      ≡ read_summary w (drop k m) 0 fingerprint_bytes want_entry_bytes
unfolding read_summary
read_summary-drop w m k =
    let e : k + fingerprint_bytes + mod_name_bytes ≡ k + want_entry_bytes = omega arith in
    rw e (rw (drop-add k fingerprint_bytes m) (rw (drop-add k want_entry_bytes m)))

-- What is read, from what stands at the three offsets.
pub read_summary-of :
    (w : Bool) (m : Bytes) (at name_at version_at : ℕ) (s : AnnounceSummary)
    → take fingerprint_bytes (drop at m) ≡ s.publisher
    → length s.publisher ≡ fingerprint_bytes
    → read_text mod_name_bytes (drop name_at m) ≡ s.mod_name
    → is_acceptable_mod_name s.mod_name ≡ true
    → (if w then read_le version_bytes (drop version_at m) else 0) ≡ s.version
    → read_summary w m at name_at version_at ≡ some s
unfolding read_summary
read_summary-of w m at name_at version_at s p l n a v = rw (p, n, a) (ground arith)

module _ (s : AnnounceSummary) (tail rest : Bytes) (v : IsSummary s) where
  abbrev row : Bytes
  row = s.publisher ++ (pad_mod_name s.mod_name ++ tail)

  row_assoc : row ++ rest ≡ s.publisher ++ (pad_mod_name s.mod_name ++ (tail ++ rest))
  row_assoc = simp append_assoc

  row_publisher : take fingerprint_bytes (row ++ rest) ≡ s.publisher
  row_publisher = rw row_assoc (take-append fingerprint_bytes s.publisher _ v.publisher_length)

  row_behind : drop fingerprint_bytes (row ++ rest) ≡ pad_mod_name s.mod_name ++ (tail ++ rest)
  row_behind = rw row_assoc (drop-append fingerprint_bytes s.publisher _ v.publisher_length)

  row_name : read_text mod_name_bytes (drop fingerprint_bytes (row ++ rest)) ≡ s.mod_name
  row_name = rw row_behind (read_text-pad_mod_name s.mod_name (tail ++ rest) v.name_accepted)

  row_tail : drop want_entry_bytes (row ++ rest) ≡ tail ++ rest
  row_tail =
      drop-add fingerprint_bytes mod_name_bytes (row ++ rest)
      ∙ rw row_behind (
          drop-append mod_name_bytes (pad_mod_name s.mod_name) (tail ++ rest)
            (length-pad_mod_name s.mod_name))

-- An entry that stands at the start of a message reads back.
pub read_summary-encode_entry :
    (w : Bool) (s : AnnounceSummary) (rest : Bytes)
    → IsSummary s
    → read_summary w (encode_entry w s ++ rest) 0 fingerprint_bytes want_entry_bytes
      ≡ some (shown w s)
unfolding encode_entry
read_summary-encode_entry true s rest v =
    let tail = write_le version_bytes s.version in
    read_summary-of true _ 0 _ _ s (row_publisher s tail rest v) v.publisher_length
      (row_name s tail rest v) v.name_accepted
      (rw (row_tail s tail rest v) (read_le-write_le version_bytes s.version rest v.version_lt))
read_summary-encode_entry false s rest v =
    read_summary-of false _ 0 _ _ (shown false s) (row_publisher s [] rest v) v.publisher_length
      (row_name s [] rest v) v.name_accepted refl
