-- ===== src/Update/VersionNumber/RoundTrip.antt =====
-- What is printed is read back.
use wgrd_mod_manager.Common.{
  ℕ, zero, suc, ◌+◌, ◌-◌, ◌*◌, ◌/◌, ◌%◌, ◌≤◌, ◌<◌, ◌≡◌, refl, ap, ◌∙◌, inl, inr, Bool, true, ◌&&◌,
  some, List, [], ◌∷◌, ◌++◌, arith, ltb, Bool-cases, length, all, length-append, Bytes,
}
use wgrd_mod_manager.Update.VersionNumber.{
  VersionNumber, component_limit, is_digit, value_from, parse_component, split_dot, without_prefix,
  version_of, parse_version, decimal, to_text,
}

value_from-append :
    (value : ℕ) (text more : Bytes)
    → value_from value (text ++ more) ≡ value_from (value_from value text) more
unfolding value_from
value_from-append value [] more = refl
value_from-append value (c ∷ text) more = value_from-append (value * 10 + (c - b'0')) text more

all-append :
    {A : Type 0} (p : A → Bool) (xs ys : List A) → all p (xs ++ ys) ≡ (all p xs && all p ys)
all-append p [] ys = refl
all-append p (x ∷ xs) ys = ground (arith, all-append p xs ys)

abbrev tens : ℕ → ℕ
tens zero = 1
tens (suc k) = tens k * 10

-- a number of so many digits
record IsDecimal (k n : ℕ) (text : Bytes) : Type 0 where
  value : value_from 0 text ≡ n
  digits : all is_digit text ≡ true
  filled : 0 < length text
  length_max : length text ≤ k

decimal-IsDecimal :
    (k fuel n : ℕ) → n < tens (suc k) → k < fuel → IsDecimal (suc k) n (decimal fuel n)
unfolding decimal value_from
decimal-IsDecimal k zero n h p = absurd (omega arith)
decimal-IsDecimal zero (suc fuel) n h p =
    let small : ltb n 10 ≡ true = ground (arith, h) in
    rw (small, decimal)
      record {
        value = omega arith;
        digits = ground (arith, h);
        filled = omega arith;
        length_max = omega arith;
      }
decimal-IsDecimal (suc k) (suc fuel) n h p = elim (Bool-cases (ltb n 10)) [
  | inl small ↦
      rw (small, decimal)
        record {
          value = omega arith;
          digits = ground (arith, small);
          filled = omega arith;
          length_max = omega arith;
        }
  | inr large ↦
      let d = decimal-IsDecimal k fuel (n / 10) (omega (arith, h)) (omega (arith, p)) in
      let last = (b'0' + n % 10) ∷ [] in
      rw (large, decimal)
        record {
          value =
              value_from-append 0 (decimal fuel (n / 10)) last
              ∙ ap (λ v. v * 10 + ((b'0' + n % 10) - b'0')) d.value
              ∙ omega arith;
          digits = ground (arith, all-append is_digit (decimal fuel (n / 10)) last, d.digits);
          filled = omega (arith, length-append (decimal fuel (n / 10)) last);
          length_max = omega (arith, length-append (decimal fuel (n / 10)) last, d.length_max);
        }
]

parse_component-decimal : (n : ℕ) → n < component_limit → parse_component (decimal 10 n) ≡ some n
unfolding parse_component
parse_component-decimal n h =
    let d = decimal-IsDecimal 4 10 n h (omega arith) in
    ground (arith, d.value, d.digits, d.filled, d.length_max, h)

split_dot-digits :
    (text rest : Bytes)
    → all is_digit text ≡ true
    → split_dot (text ++ b'.' ∷ rest) ≡ some (text, rest)
unfolding split_dot
split_dot-digits [] rest h = refl
split_dot-digits (c ∷ text) rest h = ground (arith, split_dot-digits text rest)

without_prefix-digits :
    (text rest : Bytes)
    → all is_digit text ≡ true
    → 0 < length text
    → without_prefix (text ++ rest) ≡ text ++ rest
unfolding without_prefix
without_prefix-digits [] rest h l = absurd (omega arith)
without_prefix-digits (c ∷ text) rest h l = ground arith

-- a version whose three numbers are below the limit
pub record IsVersion (v : VersionNumber) : Type 0 where
  pub major_lt : v.major < component_limit
  pub minor_lt : v.minor < component_limit
  pub patch_lt : v.patch < component_limit

-- A version with numbers below 100000 is read back as it was printed.
pub parse_version-to_text : (v : VersionNumber) → IsVersion v → parse_version (to_text v) ≡ some v
unfolding parse_version to_text version_of
parse_version-to_text v h =
    let a = decimal-IsDecimal 4 10 v.major h.major_lt (omega arith) in
    let b = decimal-IsDecimal 4 10 v.minor h.minor_lt (omega arith) in
    let rest = decimal 10 v.minor ++ (b'.' ∷ decimal 10 v.patch) in
    rw (without_prefix-digits (decimal 10 v.major) (b'.' ∷ rest) a.digits a.filled, parse_version)
      (rw (split_dot-digits (decimal 10 v.major) rest a.digits) (
        rw (split_dot-digits (decimal 10 v.minor) (decimal 10 v.patch) b.digits) (
          rw (parse_component-decimal v.major h.major_lt) (
            rw (parse_component-decimal v.minor h.minor_lt)
              (rw (parse_component-decimal v.patch h.patch_lt) refl)))))
