-- ===== src/Update/VersionNumber.antt =====
-- src/manager/update/VersionNumber: three numbers of at most five digits.
pub mod RoundTrip
use wgrd_mod_manager.Common.{
  ℕ, zero, suc, ◌+◌, ◌-◌, ◌*◌, ◌/◌, ◌%◌, Bool, not, ◌&&◌, ◌||◌, Option, none, some, [], ◌∷◌, ◌++◌,
  ltb, leb, ◌==◌, if◌then◌else◌, length, all, Bytes,
}

pub record VersionNumber : Type 0 where
  pub major : ℕ
  pub minor : ℕ
  pub patch : ℕ

abbrev pub component_limit : ℕ
component_limit = 100000

abbrev pub is_digit : ℕ → Bool
is_digit c = leb b'0' c && leb c b'9'

-- `std::from_chars` of a text of digits, with the value so far
unfoldable pub value_from : ℕ → Bytes → ℕ
value_from value [] = value
value_from value (c ∷ text) = value_from (value * 10 + (c - b'0')) text

-- `ParseComponent`: as `std::from_chars` has to come to the end, each octet is a digit
unfoldable pub parse_component : Bytes → Option ℕ
parse_component text =
    if length text == 0 || ltb 6 (length text)
    then none
    else if not (all is_digit text)
    then none
    else if leb component_limit (value_from 0 text)
    then none
    else some (value_from 0 text)

-- what stands before the first dot, and what behind it, if there is one
unfoldable pub split_dot : Bytes → Option (Bytes × Bytes)
split_dot [] = none
split_dot (c ∷ text) =
    let rest = split_dot text in
    if c == b'.'
    then some ([], text)
    else elim rest [ none ↦ none | some (before, behind) ↦ some (c ∷ before, behind) ]

unfoldable pub without_prefix : Bytes → Bytes
without_prefix [] = []
without_prefix (c ∷ text) = if c == b'v' || c == b'V' then text else c ∷ text

unfoldable pub version_of : Option ℕ → Option ℕ → Option ℕ → Option VersionNumber
version_of none minor patch = none
version_of (some major) none patch = none
version_of (some major) (some minor) none = none
version_of (some major) (some minor) (some patch) =
    some (record { major = major; minor = minor; patch = patch })

-- `Parse`
unfoldable pub parse_version : Bytes → Option VersionNumber
parse_version text = elim (split_dot (without_prefix text)) [
  | none ↦ none
  | some (first, rest) ↦ elim (split_dot rest) [
    | none ↦ none
    | some (second, third) ↦
        version_of (parse_component first) (parse_component second) (parse_component third)
  ]
]

-- `std::format("{}")`: a number of as many digits as the fuel allows, more than it has
unfoldable pub decimal : ℕ → ℕ → Bytes
decimal zero n = []
decimal (suc fuel) n =
    let rest = decimal fuel (n / 10) in
    if ltb n 10 then (b'0' + n) ∷ [] else rest ++ (b'0' + n % 10) ∷ []

-- ten digits are enough for 32 bits
unfoldable pub to_text : VersionNumber → Bytes
to_text v = decimal 10 v.major ++ (b'.' ∷ (decimal 10 v.minor ++ (b'.' ∷ decimal 10 v.patch)))
