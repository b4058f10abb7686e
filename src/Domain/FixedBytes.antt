-- ===== src/Domain/FixedBytes.antt =====
-- src/domain/types/identity/FixedBytes.h: byte strings of one length (fingerprints of 8 bytes,
-- digests of 32, signatures of 64) and their hexadecimal form.
pub mod Hex
use wgrd_mod_manager.Common.{
  ◌>>=◌, ℕ, ◌+◌, ◌-◌, ◌*◌, ◌/◌, ◌%◌, ◌&&◌, [], ◌∷◌, leb, ◌==◌, if◌then◌else◌, length, get_or, Bytes,
  codes, Result, ok, err,
}

pub data FixedBytesError : Type 0 where
  wrong_length illegal_character : FixedBytesError

unfoldable pub from_bytes : ℕ → Bytes → Result FixedBytesError Bytes
from_bytes n source = if length source == n then ok source else err wrong_length

abbrev pub hex_digits : Bytes
hex_digits = codes "0123456789abcdef"

unfoldable pub to_hex : Bytes → Bytes
to_hex [] = []
to_hex (b ∷ bs) = get_or hex_digits (b / 16) 0 ∷ get_or hex_digits (b % 16) 0 ∷ to_hex bs

unfoldable pub decode_nibble : ℕ → Result FixedBytesError ℕ
decode_nibble c =
    if leb b'0' c && leb c b'9'
    then ok (c - b'0')
    else if leb b'a' c && leb c b'f'
    then ok (c - b'a' + 10)
    else err illegal_character

-- The two nibbles are in range, so that `(high << 4) | low` is a sum.
unfoldable pub decode_pairs : Bytes → Result FixedBytesError Bytes
unfolding decode_nibble
decode_pairs [] = ok []
decode_pairs (h ∷ []) = err wrong_length
decode_pairs (h ∷ l ∷ rest) = do
  high ← decode_nibble h
  low ← decode_nibble l
  bytes ← decode_pairs rest
  ok ((high * 16 + low) ∷ bytes)

unfoldable pub from_hex : ℕ → Bytes → Result FixedBytesError Bytes
unfolding decode_pairs
from_hex n text = if length text == n * 2 then decode_pairs text else err wrong_length
