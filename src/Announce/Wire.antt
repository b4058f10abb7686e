-- ===== src/Announce/Wire.antt =====
-- src/downloader/announce/AnnounceWireCodec: the messages that two peers exchange.
pub mod Entries
pub mod RoundTrip
pub mod Sound
use wgrd_mod_manager.Common.{
  ℕ, zero, suc, ◌+◌, ◌*◌, ◌/◌, ◌%◌, min, Bool, true, false, not, Option, none, some, List, [], ◌∷◌,
  ◌++◌, ltb, ◌==◌, if◌then◌else◌, length, get_or, take, drop, Bytes, Result, ok, err, then_some,
}
use wgrd_mod_manager.Domain.FixedBytes.{from_bytes}
use wgrd_mod_manager.Domain.Names.{is_acceptable_mod_name}
use wgrd_mod_manager.Announce.Summary.{
  fingerprint_bytes, mod_name_bytes, version_bytes, AnnounceSummary, write_le, read_le,
  pad_mod_name, read_text,
}

pub data AnnounceWireMessage : Type 0 where
  offer want record_message ask : AnnounceWireMessage

abbrev pub tag : AnnounceWireMessage → ℕ
tag offer = 1
tag want = 2
tag record_message = 3
tag ask = 4

abbrev pub offer_entry_bytes : ℕ
offer_entry_bytes = fingerprint_bytes + mod_name_bytes + version_bytes

abbrev pub want_entry_bytes : ℕ
want_entry_bytes = fingerprint_bytes + mod_name_bytes

abbrev pub record_bytes : ℕ
record_bytes = 220

abbrev pub record_fingerprint_offset : ℕ
record_fingerprint_offset = 12

abbrev pub record_mod_name_offset : ℕ
record_mod_name_offset = 20

abbrev pub record_version_offset : ℕ
record_version_offset = 84

abbrev pub maximum_entries : ℕ
maximum_entries = 64

abbrev pub maximum_message_bytes : ℕ
maximum_message_bytes = 8192

abbrev pub header_bytes : ℕ
header_bytes = 1

abbrev pub count_bytes : ℕ
count_bytes = 2

-- one pass of the loops of `EncodeOffer` (with the version) and of `EncodeWant` (without)
unfoldable pub encode_entry : Bool → AnnounceSummary → Bytes
encode_entry with_version s =
    s.publisher
    ++ (pad_mod_name s.mod_name ++ (if with_version then write_le version_bytes s.version else []))

unfoldable pub encode_entries : Bool → List AnnounceSummary → Bytes
unfolding encode_entry
encode_entries with_version [] = []
encode_entries with_version (s ∷ ss) = encode_entry with_version s ++ encode_entries with_version ss

abbrev encode_list : AnnounceWireMessage → Bool → List AnnounceSummary → Bytes
encode_list kind with_version summaries =
    let count = min (length summaries) maximum_entries in
    tag kind ∷ count % 256 ∷ count / 256 % 256 ∷ encode_entries with_version (take count summaries)

unfoldable pub encode_offer : List AnnounceSummary → Bytes
encode_offer = encode_list offer true

unfoldable pub encode_want : List AnnounceSummary → Bytes
encode_want = encode_list want false

unfoldable pub encode_record : Bytes → Bytes
encode_record message = if length message == record_bytes then tag record_message ∷ message else []

unfoldable pub encode_ask : Bytes
encode_ask = tag ask ∷ []

unfoldable pub message_of : Bytes → Option AnnounceWireMessage
message_of [] = none
message_of (t ∷ rest) =
    if ltb maximum_message_bytes (length (t ∷ rest))
    then none
    else if t == tag offer
    then some offer
    else if t == tag want
    then some want
    else if t == tag record_message
    then some record_message
    else if t == tag ask
    then some ask
    else none

-- `*kind != expected`, and no kind
abbrev pub is_kind : AnnounceWireMessage → Bytes → Bool
is_kind kind message = elim (message_of message) [ none ↦ false | some k ↦ tag k == tag kind ]

abbrev pub has_value {ℓ κ} : {E : Type ℓ} {A : Type κ} → Result E A → Option A
has_value (ok a) = some a
has_value (err e) = none

-- a summary of which the fingerprint starts at one offset, the mod name at a second and the
-- version at a third
unfoldable pub read_summary : Bool → Bytes → ℕ → ℕ → ℕ → Option AnnounceSummary
unfolding from_bytes
read_summary with_version message at name_at version_at =
    then_some (has_value (from_bytes fingerprint_bytes (take fingerprint_bytes (drop at message))))
      λ publisher.
        let mod_name = read_text mod_name_bytes (drop name_at message) in
        if is_acceptable_mod_name mod_name
        then some (record {
          publisher = publisher;
          mod_name = mod_name;
          version = if with_version then read_le version_bytes (drop version_at message) else 0;
        })
        else none

-- the loop of `DecodeEntries_`, with the passes that are left and the index of the next
unfoldable pub decode_from : Bool → ℕ → Bytes → ℕ → ℕ → Option (List AnnounceSummary)
decode_from with_version entry_bytes message zero index = some []
decode_from with_version entry_bytes message (suc left) index =
    let offset = header_bytes + count_bytes + index * entry_bytes in
    let name_offset = offset + fingerprint_bytes in
    let rest = decode_from with_version entry_bytes message left (suc index) in
    then_some (read_summary with_version message offset name_offset (name_offset + mod_name_bytes))
      λ s. then_some rest λ ss. some (s ∷ ss)

-- `message[1] | (message[2] << 8)`: the two bytes do not overlap
abbrev pub count_of : Bytes → ℕ
count_of message = get_or message 1 0 + get_or message 2 0 * 256

unfoldable pub decode_entries :
    AnnounceWireMessage → ℕ → Bool → Bytes → Option (List AnnounceSummary)
unfolding message_of
decode_entries expected entry_bytes with_version message =
    if not (is_kind expected message)
    then none
    else if ltb (length message) (header_bytes + count_bytes)
    then none
    else if ltb maximum_entries (count_of message)
    then none
    else if not (length message == header_bytes + count_bytes + count_of message * entry_bytes)
    then none
    else decode_from with_version entry_bytes message (count_of message) 0

unfoldable pub decode_offer : Bytes → Option (List AnnounceSummary)
unfolding decode_entries decode_from read_summary
decode_offer = decode_entries offer offer_entry_bytes true

unfoldable pub decode_want : Bytes → Option (List AnnounceSummary)
unfolding decode_entries decode_from read_summary
decode_want = decode_entries want want_entry_bytes false

unfoldable pub decode_record : Bytes → Option Bytes
unfolding message_of
decode_record message =
    if not (is_kind record_message message)
    then none
    else if not (length message == header_bytes + record_bytes)
    then none
    else some (drop header_bytes message)

unfoldable pub record_summary : Bytes → Option AnnounceSummary
unfolding read_summary
record_summary message =
    if not (length message == record_bytes)
    then none
    else read_summary true message record_fingerprint_offset record_mod_name_offset
        record_version_offset
