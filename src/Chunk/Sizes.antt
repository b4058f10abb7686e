-- ===== src/Chunk/Sizes.antt =====
-- src/domain/types/content/ChunkSizes: the bounds of a chunk. The masks are `2 ^ bits - 1`; a
-- fingerprint has no bit in common with such a mask exactly when `2 ^ bits` divides it, so the
-- model keeps the number of bits. An average from 2 ^ 62 on would shift a mask by 64 bits or more, which
-- C++ leaves undefined; such sizes are outside the model.
use wgrd_mod_manager.Common.{
  ℕ, zero, suc, ◌+◌, ◌-◌, ◌/◌, ◌%◌, ◌^◌, ◌≤◌, ◌<◌, ◌≡◌, Bool, not, ◌&&◌, ◌||◌, arith, ltb, leb,
  ◌==◌, if◌then◌else◌, Result, ok, err,
}

pub data ChunkSizesError : Type 0 where
  average_not_power_of_two average_too_small minimum_not_below_average maximum_not_above_average :
      ChunkSizesError

pub record ChunkSizes : Type 0 where
  pub minimum : ℕ
  pub average : ℕ
  pub maximum : ℕ
  pub small_mask_bits : ℕ
  pub large_mask_bits : ℕ

-- `TrailingZeroCount_`; at most 64 halvings reach an odd number or 0
unfoldable pub trailing_zeros : ℕ → ℕ → ℕ
trailing_zeros zero value = 0
trailing_zeros (suc fuel) value =
    let rest = trailing_zeros fuel (value / 2) in
    if value % 2 == 0 && ltb 0 value then rest + 1 else 0

abbrev pub trailing_zero_count : ℕ → ℕ
trailing_zero_count value = trailing_zeros 64 value

-- `(value & (value - 1)) != 0` is false of a positive value exactly when it is `2 ^` its number of
-- trailing zeros
unfoldable pub is_power_of_two : ℕ → Bool
is_power_of_two value = value == 2 ^ trailing_zero_count value

unfoldable pub create : ℕ → ℕ → ℕ → Result ChunkSizesError ChunkSizes
create minimum average maximum =
    if average == 0 || not (is_power_of_two average)
    then err average_not_power_of_two
    else if ltb (trailing_zero_count average) 10
    then err average_too_small
    else if minimum == 0 || leb average minimum
    then err minimum_not_below_average
    else if leb maximum average
    then err maximum_not_above_average
    else ok (record {
      minimum = minimum;
      average = average;
      maximum = maximum;
      small_mask_bits = trailing_zero_count average + 2;
      large_mask_bits = trailing_zero_count average - 2;
    })

-- what `Create` promises of its sizes
pub record IsChunkSizes (s : ChunkSizes) : Type 0 where
  pub minimum_positive : 1 ≤ s.minimum
  pub below : s.minimum < s.average
  pub above : s.average < s.maximum

-- Sizes that `Create` lets through have a positive minimum below the average, and a maximum above it.
create-IsChunkSizes :
    (minimum average maximum : ℕ) {s : ChunkSizes}
    → create minimum average maximum ≡ ok s
    → IsChunkSizes s
unfolding create
create-IsChunkSizes minimum average maximum h = ground arith
