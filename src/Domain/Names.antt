-- ===== src/Domain/Names.antt =====
-- src/domain/rules/ModNameRule.cpp: which mod names are
-- taken. A byte from 128 on is a negative `char` and fails every range test,
-- as it does here.
pub mod Charset
use wgrd_mod_manager.Common.{
  ℕ, Bool, false, ◌&&◌, ◌||◌, ltb, leb, ◌==◌, if◌then◌else◌, length, all, Bytes,
}

abbrev pub within : ℕ → ℕ → ℕ → Bool
within lo hi c = leb lo c && leb c hi

abbrev pub mod_name_maximum_length : ℕ
mod_name_maximum_length = 64

unfoldable pub is_mod_name_char : ℕ → Bool
is_mod_name_char c =
    within b'A' b'Z' c || within b'a' b'z' c || within b'0' b'9' c || c == b'_' || c == b'-'

unfoldable pub is_acceptable_mod_name : Bytes → Bool
is_acceptable_mod_name name =
    if length name == 0 || ltb mod_name_maximum_length (length name)
    then false
    else all is_mod_name_char name
