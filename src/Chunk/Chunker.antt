-- ===== src/Chunk/Chunker.antt =====
-- src/downloader/chunk/FastCdcChunker. The gear table (src/downloader/chunk/GearTable.h), which
-- gives each octet a number of 64 bits, is an argument.
pub mod Cover
use wgrd_mod_manager.Common.{
  length, ℕ, zero, suc, ◌+◌, ◌/◌, ◌%◌, ◌^◌, min, ◌⊎◌, inl, inr, List, [], ◌∷◌, leb, ◌==◌,
  if◌then◌else◌, drop, Bytes,
}
use wgrd_mod_manager.Chunk.Sizes.{ChunkSizes}

pub record ChunkSpan : Type 0 where
  pub offset : ℕ
  pub length : ℕ

module _ (gear : ℕ → ℕ) where
  -- One of the two loops of `NextBoundary` over the octets from `position` on: `inl` of a boundary,
  -- or `inr` of the fingerprint with which it came to its end.
  unfoldable pub scan : ℕ → ℕ → ℕ → ℕ → Bytes → ℕ ⊎ ℕ
  scan bits stop fingerprint position [] = inr fingerprint
  scan bits stop fingerprint position (b ∷ data_) =
      let next = (fingerprint / 2 + gear b) % 2 ^ 64 in
      let rest = scan bits stop next (position + 1) data_ in
      if leb stop position
      then inr fingerprint
      else if next % 2 ^ bits == 0
      then inl (position + 1)
      else rest

module _ (gear : ℕ → ℕ) (sizes : ChunkSizes) where
  unfoldable pub next_boundary : Bytes → ℕ
  next_boundary data_ =
      let available = length data_ in
      let limit = min available sizes.maximum in
      let normal_point = min limit sizes.average in
      if leb available sizes.minimum
      then available
      else elim (scan gear sizes.small_mask_bits normal_point 0 sizes.minimum
          (drop sizes.minimum data_)) [
            | inl boundary ↦ boundary
            | inr fingerprint ↦
                elim (scan gear sizes.large_mask_bits limit fingerprint normal_point
                  (drop normal_point data_)) [ inl boundary ↦ boundary | inr _ ↦ limit ]
          ]

  -- The loop of `Split` from an offset on. Each turn takes an octet at least, so that as much fuel
  -- as there are octets is enough.
  unfoldable pub split_from : ℕ → ℕ → Bytes → List ChunkSpan
  split_from zero offset data_ = []
  split_from (suc fuel) offset data_ =
      let taken = next_boundary data_ in
      let rest = split_from fuel (offset + taken) (drop taken data_) in
      if length data_ == 0 then [] else record { offset = offset; length = taken } ∷ rest

  unfoldable pub split : Bytes → List ChunkSpan
  split data_ = split_from (length data_) 0 data_
