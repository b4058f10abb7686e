-- ===== src/Announce/Codec/RoundTrip.antt =====
-- What `Encode` writes, `Decode` reads back; and what any record that decodes holds.

use wgrd_mod_manager.Domain.Names.{is_acceptable_mod_name}
use wgrd_mod_manager.Announce.Summary.Fields.{
  length-write_le, read_le-write_le, read_le-lt, length-pad_mod_name, read_text-pad_mod_name,
}
use wgrd_mod_manager.Announce.Codec.Layout.{signed_row, length-signed_row, encode-signed_row}
use wgrd_mod_manager.Common.{
  ℕ, ◌+◌, ◌<◌, ◌≡◌, refl, sym, ap, ◌∙◌, Bool, true, false, Option, none, some, ◌++◌, append_assoc,
  arith, if◌then◌else◌, length, take, drop, length-append, take-append, drop-append, drop-add,
  take_all, All-take, Bytes, AreBytes, same_iff, Result, ok, err, bind-eq-ok,
}
use wgrd_mod_manager.Announce.Summary.{
  fingerprint_bytes, mod_name_bytes, version_bytes, write_le, read_le, pad_mod_name, read_text,
}
use wgrd_mod_manager.Announce.Wire.Sound.{AreBytes-drop}
use wgrd_mod_manager.Announce.Codec.{
  SignedAnnounce, AnnounceDecodeError, magic, format_version, magic_offset, format_offset,
  fingerprint_offset, mod_name_offset, version_offset, manifest_digest_offset,
  torrent_info_hash_offset, signature_offset, announce_record_bytes, digest_bytes, signature_bytes,
  encode, part, need, read_fields, decode, IsAnnounce,
}

-- What `Decode` needs of a record to return an announce.
record Holds (a : SignedAnnounce) (r : Bytes) : Type 0 where
  size : length r ≡ announce_record_bytes
  marked : take 8 (drop magic_offset r) ≡ magic
  formatted : read_le 4 (drop format_offset r) ≡ format_version
  published : take fingerprint_bytes (drop fingerprint_offset r) ≡ a.publisher
  named : read_text mod_name_bytes (drop mod_name_offset r) ≡ a.mod_name
  versioned : read_le 8 (drop version_offset r) ≡ a.version
  digested : take digest_bytes (drop manifest_digest_offset r) ≡ a.manifest_digest
  hashed : take digest_bytes (drop torrent_info_hash_offset r) ≡ a.torrent_info_hash
  signed : take signature_bytes (drop signature_offset r) ≡ a.signature

part-eq_some :
    (offset n : ℕ) (r bytes : Bytes)
    → take n (drop offset r) ≡ bytes
    → length bytes ≡ n
    → part offset n r ≡ some bytes
unfolding part
part-eq_some offset n r bytes e l = rw (e, part) (ground arith)

decode-Holds : (a : SignedAnnounce) (r : Bytes) → IsAnnounce a → Holds a r → decode r ≡ ok a
unfolding decode read_fields
decode-Holds a r v h = ground (
  arith,
  same_iff (take 8 (drop magic_offset r)) magic,
  part-eq_some 12 8 r a.publisher h.published v.publisher_length,
  part-eq_some 92 32 r a.manifest_digest h.digested v.manifest_digest_length,
  part-eq_some 124 32 r a.torrent_info_hash h.hashed v.torrent_info_hash_length,
  part-eq_some 156 64 r a.signature h.signed v.signature_length,
)

-- The rest of a record behind one more field.
behind : (k n : ℕ) (r x rest : Bytes) → drop k r ≡ x ++ rest → length x ≡ n → drop (k + n) r ≡ rest
behind k n r x rest e l = drop-add k n r ∙ ap (drop n) e ∙ drop-append n x rest l

front : (k n : ℕ) (r x rest : Bytes) → drop k r ≡ x ++ rest → length x ≡ n → take n (drop k r) ≡ x
front k n r x rest e l = ap (take n) e ∙ take-append n x rest l

module _ (a : SignedAnnounce) (v : IsAnnounce a) where
  abbrev behind_name : Bytes
  behind_name = write_le 8 a.version ++ (a.manifest_digest ++ (a.torrent_info_hash ++ a.signature))

  abbrev behind_magic : Bytes
  behind_magic =
      write_le 4 format_version ++ (a.publisher ++ (pad_mod_name a.mod_name ++ behind_name))

  encode-row : encode a ≡ magic ++ behind_magic
  encode-row = encode-signed_row a v ∙ simp append_assoc

  drop_8 : drop 8 (encode a) ≡ behind_magic
  drop_8 = ap (drop 8) encode-row

  drop_12 : drop 12 (encode a) ≡ a.publisher ++ (pad_mod_name a.mod_name ++ behind_name)
  drop_12 = behind 8 4 (encode a) (write_le 4 1) _ drop_8 (length-write_le 4 1)

  drop_20 : drop 20 (encode a) ≡ pad_mod_name a.mod_name ++ behind_name
  drop_20 = behind 12 8 (encode a) a.publisher _ drop_12 v.publisher_length

  drop_84 : drop 84 (encode a) ≡ behind_name
  drop_84 =
      behind 20 64 (encode a) (pad_mod_name a.mod_name) _ drop_20 (length-pad_mod_name a.mod_name)

  drop_92 : drop 92 (encode a) ≡ a.manifest_digest ++ (a.torrent_info_hash ++ a.signature)
  drop_92 = behind 84 8 (encode a) (write_le 8 a.version) _ drop_84 (length-write_le 8 a.version)

  drop_124 : drop 124 (encode a) ≡ a.torrent_info_hash ++ a.signature
  drop_124 = behind 92 32 (encode a) a.manifest_digest _ drop_92 v.manifest_digest_length

  drop_156 : drop 156 (encode a) ≡ a.signature
  drop_156 = behind 124 32 (encode a) a.torrent_info_hash _ drop_124 v.torrent_info_hash_length

  pub length-encode : length (encode a) ≡ announce_record_bytes
  length-encode =
      ap length (encode-signed_row a v)
      ∙ length-append (signed_row a) a.signature
      ∙ omega (arith, length-signed_row a v, v.signature_length)

  encode-Holds : Holds a (encode a)
  encode-Holds = record {
    size = length-encode;
    marked = ap (take 8) encode-row;
    formatted = ap (read_le 4) drop_8 ∙ read_le-write_le 4 1 _ (omega arith);
    published = front 12 8 (encode a) a.publisher _ drop_12 v.publisher_length;
    named = ap (read_text 64) drop_20 ∙ read_text-pad_mod_name a.mod_name _ v.name_accepted;
    versioned = ap (read_le 8) drop_84 ∙ read_le-write_le 8 a.version _ v.version_lt;
    digested = front 92 32 (encode a) a.manifest_digest _ drop_92 v.manifest_digest_length;
    hashed = front 124 32 (encode a) a.torrent_info_hash _ drop_124 v.torrent_info_hash_length;
    signed = ap (take 64) drop_156 ∙ take_all 64 a.signature (omega (arith, v.signature_length));
  }

-- Every announce with fields of the right sizes, an acceptable name and a 64-bit version is read
-- back from its record.
pub decode-encode : (a : SignedAnnounce) → IsAnnounce a → decode (encode a) ≡ ok a
decode-encode a v = decode-Holds a (encode a) v (encode-Holds a v)

pub part-length : (offset n : ℕ) (r : Bytes) {x : Bytes} → part offset n r ≡ some x → length x ≡ n
unfolding part
part-length offset n r e = ground arith

pub part-taken :
    (offset n : ℕ) (r : Bytes) {x : Bytes} → part offset n r ≡ some x → take n (drop offset r) ≡ x
unfolding part
part-taken offset n r e = ground arith

-- What a record that decodes holds.
pub record Decodes (r : Bytes) (a : SignedAnnounce) : Type 0 where
  pub size : length r ≡ announce_record_bytes
  pub published : part 12 8 r ≡ some a.publisher
  pub digested : part 92 32 r ≡ some a.manifest_digest
  pub hashed : part 124 32 r ≡ some a.torrent_info_hash
  pub signed : part 156 64 r ≡ some a.signature
  pub named : read_text 64 (drop 20 r) ≡ a.mod_name
  pub accepted : is_acceptable_mod_name a.mod_name ≡ true
  pub versioned : read_le 8 (drop 84 r) ≡ a.version

need-eq_ok : (o : Option Bytes) {x : Bytes} → need o ≡ ok x → o ≡ some x
need-eq_ok none e = cc
need-eq_ok (some y) e = ap some (ground arith)

passed :
    (b : Bool) (x : SignedAnnounce) (f : AnnounceDecodeError) {y : SignedAnnounce}
    → (if b then ok x else err f) ≡ ok y
    → (b ≡ true) × (x ≡ y)
passed true x f e = (refl, ok-injective e)
  where
    ok-injective :
        {x y : SignedAnnounce}
        → ◌≡◌ {A = Result AnnounceDecodeError SignedAnnounce} (ok x) (ok y)
        → x ≡ y
    ok-injective h = cc
passed false x f e = cc

decode-read_fields :
    (r : Bytes) {a : SignedAnnounce}
    → decode r ≡ ok a
    → (length r ≡ announce_record_bytes) × (read_fields r ≡ ok a)
unfolding decode
decode-read_fields r e = ground arith

pub decode-Decodes : (r : Bytes) {a : SignedAnnounce} → decode r ≡ ok a → Decodes r a
unfolding read_fields
decode-Decodes r e =
    let (size, fields) = decode-read_fields r e in
    let (p, hp, e1) = bind-eq-ok (need (part 12 8 r)) _ fields in
    let (d, hd, e2) = bind-eq-ok (need (part 92 32 r)) _ e1 in
    let (h, hh, e3) = bind-eq-ok (need (part 124 32 r)) _ e2 in
    let (s, hs, e4) = bind-eq-ok (need (part 156 64 r)) _ e3 in
    let (accepted, same_fields) = passed _ _ _ e4 in
    record {
      size = size;
      published = need-eq_ok _ hp ∙ ap (λ a. some a.publisher) same_fields;
      digested = need-eq_ok _ hd ∙ ap (λ a. some a.manifest_digest) same_fields;
      hashed = need-eq_ok _ hh ∙ ap (λ a. some a.torrent_info_hash) same_fields;
      signed = need-eq_ok _ hs ∙ ap (λ a. some a.signature) same_fields;
      named = ap (λ a. a.mod_name) same_fields;
      accepted = rw (← ap (λ a. a.mod_name) same_fields) accepted;
      versioned = ap (λ a. a.version) same_fields;
    }

-- Whatever bytes arrive, an announce that decodes has fields of the right sizes, an acceptable
-- name and a 64-bit version.
pub decode-IsAnnounce :
    (r : Bytes) {a : SignedAnnounce} → AreBytes r → decode r ≡ ok a → IsAnnounce a
decode-IsAnnounce r b e =
    let d = decode-Decodes r e in
    record {
      publisher_length = part-length 12 8 r d.published;
      publisher_bytes =
          rw (← part-taken 12 8 r d.published)
            (All-take (λ c. c < 256) 8 (drop 12 r) (AreBytes-drop 12 r b));
      name_accepted = d.accepted;
      version_lt = rw (← d.versioned) (read_le-lt version_bytes (drop 84 r) (AreBytes-drop 84 r b));
      manifest_digest_length = part-length 92 32 r d.digested;
      torrent_info_hash_length = part-length 124 32 r d.hashed;
      signature_length = part-length 156 64 r d.signed;
    }

-- So the record under which a received announce is passed on decodes to the same announce, also
-- where the record that came in differed from it behind the end of the name.
decode-encode-decode :
    (r : Bytes) {a : SignedAnnounce} → AreBytes r → decode r ≡ ok a → decode (encode a) ≡ decode r
decode-encode-decode r {a} b e = decode-encode a (decode-IsAnnounce r b e) ∙ sym e
