-- ===== src/Announce/Codec.antt =====
-- src/manager/announce/AnnounceCodec and src/domain/types/distribution/SignedAnnounce.h: the
-- signed record of 220 bytes in which a release is announced.
pub mod Layout
pub mod RoundTrip
pub mod Agreement
use wgrd_mod_manager.Common.{
  ℕ, ◌+◌, ◌-◌, ◌^◌, ◌<◌, min, ◌≡◌, true, not, Option, none, some, ◌++◌, ◌==◌, if◌then◌else◌, length,
  take, drop, replicate, Bytes, codes, AreBytes, same, Result, ok, err, ◌>>=◌, ◌>>◌,
}
use wgrd_mod_manager.Domain.FixedBytes.{from_bytes}
use wgrd_mod_manager.Domain.Names.{is_acceptable_mod_name}
use wgrd_mod_manager.Announce.Summary.{
  fingerprint_bytes, mod_name_bytes, version_bytes, write_le, read_le, read_text,
}

pub record SignedAnnounce : Type 0 where
  pub publisher : Bytes
  pub mod_name : Bytes
  pub version : ℕ
  pub manifest_digest : Bytes
  pub torrent_info_hash : Bytes
  pub signature : Bytes

pub data AnnounceDecodeError : Type 0 where
  wrong_record_length bad_magic unsupported_version mod_name_rejected : AnnounceDecodeError

abbrev pub magic : Bytes
magic = codes "WGRDANNC"

abbrev pub format_version : ℕ
format_version = 1

abbrev pub magic_offset : ℕ
magic_offset = 0

abbrev pub format_offset : ℕ
format_offset = 8

abbrev pub fingerprint_offset : ℕ
fingerprint_offset = 12

abbrev pub mod_name_offset : ℕ
mod_name_offset = 20

abbrev pub version_offset : ℕ
version_offset = 84

abbrev pub manifest_digest_offset : ℕ
manifest_digest_offset = 92

abbrev pub torrent_info_hash_offset : ℕ
torrent_info_hash_offset = 124

abbrev pub signed_bytes : ℕ
signed_bytes = 156

abbrev pub signature_offset : ℕ
signature_offset = 156

abbrev pub announce_record_bytes : ℕ
announce_record_bytes = 220

abbrev pub digest_bytes : ℕ
digest_bytes = 32

abbrev pub signature_bytes : ℕ
signature_bytes = 64

-- `std::copy` of some bytes into a buffer, from an offset on
unfoldable pub write_at : ℕ → Bytes → Bytes → Bytes
write_at offset bytes buffer = take offset buffer ++ (bytes ++ drop (offset + length bytes) buffer)

unfoldable pub encode_signable : SignedAnnounce → Bytes
encode_signable a =
    let blank = replicate signed_bytes 0 in
    let marked = write_at magic_offset magic blank in
    let formatted = write_at format_offset (write_le 4 format_version) marked in
    let published = write_at fingerprint_offset a.publisher formatted in
    let name = take (min (length a.mod_name) mod_name_bytes) a.mod_name in
    let named = write_at mod_name_offset name published in
    let versioned = write_at version_offset (write_le 8 a.version) named in
    let digested = write_at manifest_digest_offset a.manifest_digest versioned in
    write_at torrent_info_hash_offset a.torrent_info_hash digested

unfoldable pub encode : SignedAnnounce → Bytes
encode a =
    let resized = encode_signable a ++ replicate (announce_record_bytes - signed_bytes) 0 in
    write_at signature_offset a.signature resized

-- `FromBytes` of a part of the record, with `none` where it fails
unfoldable pub part : ℕ → ℕ → Bytes → Option Bytes
unfolding from_bytes
part offset n record_ = elim (from_bytes n (take n (drop offset record_))) [
  | ok bytes ↦ some bytes
  | err e ↦ none
]

-- `has_value()` of one of the parts
abbrev pub need : Option Bytes → Result AnnounceDecodeError Bytes
need none = err wrong_record_length
need (some bytes) = ok bytes

-- the parts of a record behind the tests of its header, and the test of the name
unfoldable pub read_fields : Bytes → Result AnnounceDecodeError SignedAnnounce
read_fields record_ = do
  publisher ← need (part fingerprint_offset fingerprint_bytes record_)
  manifest_digest ← need (part manifest_digest_offset digest_bytes record_)
  torrent_info_hash ← need (part torrent_info_hash_offset digest_bytes record_)
  signature ← need (part signature_offset signature_bytes record_)
  let mod_name = read_text mod_name_bytes (drop mod_name_offset record_)
  if is_acceptable_mod_name mod_name
      then ok (record {
        publisher = publisher;
        mod_name = mod_name;
        version = read_le 8 (drop version_offset record_);
        manifest_digest = manifest_digest;
        torrent_info_hash = torrent_info_hash;
        signature = signature;
      })
      else err mod_name_rejected

unfoldable pub decode : Bytes → Result AnnounceDecodeError SignedAnnounce
decode record_ =
    if not (length record_ == announce_record_bytes)
    then err wrong_record_length
    else if not (same (take 8 (drop magic_offset record_)) magic)
    then err bad_magic
    else if not (read_le 4 (drop format_offset record_) == format_version)
    then err unsupported_version
    else read_fields record_

-- what the fields of a `SignedAnnounce` are
pub record IsAnnounce (a : SignedAnnounce) : Type 0 where
  pub publisher_length : length a.publisher ≡ fingerprint_bytes
  pub publisher_bytes : AreBytes a.publisher
  pub name_accepted : is_acceptable_mod_name a.mod_name ≡ true
  pub version_lt : a.version < 256 ^ version_bytes
  pub manifest_digest_length : length a.manifest_digest ≡ digest_bytes
  pub torrent_info_hash_length : length a.torrent_info_hash ≡ digest_bytes
  pub signature_length : length a.signature ≡ signature_bytes
