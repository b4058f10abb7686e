-- ===== src/Announce/Summary.antt =====
-- src/domain/types/distribution/AnnounceSummary.h and SignedAnnounce.h, and the layout that both
-- codecs share: little-endian numbers and a mod name in a field of 64 bytes.
pub mod Fields
use wgrd_mod_manager.Common.{
  ℕ, zero, suc, ◌+◌, ◌-◌, ◌*◌, ◌/◌, ◌%◌, ◌^◌, ◌<◌, min, ◌≡◌, true, not, [], ◌∷◌, ◌++◌, ◌==◌,
  if◌then◌else◌, length, take, replicate, Bytes, ◌>>◌,
}
use wgrd_mod_manager.Domain.FixedBytes.{to_hex}
use wgrd_mod_manager.Domain.Names.{is_acceptable_mod_name}

abbrev pub fingerprint_bytes : ℕ
fingerprint_bytes = 8

abbrev pub mod_name_bytes : ℕ
mod_name_bytes = 64

abbrev pub version_bytes : ℕ
version_bytes = 8

pub record AnnounceSummary : Type 0 where
  pub publisher : Bytes
  pub mod_name : Bytes
  pub version : ℕ

unfoldable pub identifier_of : Bytes → Bytes → Bytes
identifier_of publisher mod_name = to_hex publisher ++ (b'/' ∷ mod_name)

abbrev pub identifier : AnnounceSummary → Bytes
identifier s = identifier_of s.publisher s.mod_name

-- what a `std::uint64_t`, a `PublisherFingerprint` and an accepted name are
pub record IsSummary (s : AnnounceSummary) : Type 0 where
  pub publisher_length : length s.publisher ≡ fingerprint_bytes
  pub name_accepted : is_acceptable_mod_name s.mod_name ≡ true
  pub version_lt : s.version < 256 ^ version_bytes

-- `AppendLittleEndian64_`, `WriteLittleEndian32_`: byte `i` is `(value >> (8 * i)) & 0xFF`
unfoldable pub write_le : ℕ → ℕ → Bytes
write_le zero value = []
write_le (suc n) value = value % 256 ∷ write_le n (value / 256)

-- `ReadLittleEndian64_`, `ReadLittleEndian32_`: the bytes shifted by `8 * i` do not overlap, so
-- that `|` is a sum
unfoldable pub read_le : ℕ → Bytes → ℕ
read_le zero bytes = 0
read_le (suc n) [] = 0
read_le (suc n) (b ∷ bs) = b + 256 * read_le n bs

-- `AppendModName_`
unfoldable pub pad_mod_name : Bytes → Bytes
pad_mod_name name =
    let copied = min (length name) mod_name_bytes in
    take copied name ++ replicate (mod_name_bytes - copied) 0

-- at most `n` bytes, up to the first zero
unfoldable pub read_text : ℕ → Bytes → Bytes
read_text zero bytes = []
read_text (suc n) [] = []
read_text (suc n) (b ∷ bs) = if b == 0 then [] else b ∷ read_text n bs
