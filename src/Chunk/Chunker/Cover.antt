-- ===== src/Chunk/Chunker/Cover.antt =====
-- The spans of `Split` tile the data.
use wgrd_mod_manager.Common.{
  ℕ, zero, suc, ◌+◌, ◌/◌, ◌%◌, ◌^◌, ◌≤◌, ◌<◌, min, ◌≡◌, refl, ◌⊎◌, inl, inr, List, [], ◌∷◌, arith,
  leb, ◌==◌, Bool-cases, length, drop, All, length-drop, Bytes,
}
use wgrd_mod_manager.Chunk.Sizes.{ChunkSizes, IsChunkSizes}
use wgrd_mod_manager.Chunk.Chunker.{ChunkSpan, scan, next_boundary, split_from, split}

-- The spans lie one behind the other from an offset up to the end.
abbrev pub Tiles : ℕ → ℕ → List ChunkSpan → Type 0
Tiles offset end [] = offset ≡ end
Tiles offset end (s ∷ spans) = (s.offset ≡ offset) × Tiles (offset + s.length) end spans

pub Tiles-le : (offset end : ℕ) (spans : List ChunkSpan) → Tiles offset end spans → offset ≤ end
Tiles-le offset end [] t = omega arith
Tiles-le offset end (s ∷ spans) t = omega (arith, Tiles-le (offset + s.length) end spans t.1)

-- a span that ends before the data do is longer than the minimum
abbrev pub IsSized : ChunkSizes → ℕ → ChunkSpan → Type 0
IsSized sizes end s =
    (1 ≤ s.length)
    × (s.length ≤ sizes.maximum)
    × ((sizes.minimum < s.length) ⊎ (s.offset + s.length ≡ end))

scan-bounds :
    (gear : ℕ → ℕ) (bits stop fingerprint position : ℕ) (data_ : Bytes) (boundary : ℕ)
    → scan gear bits stop fingerprint position data_ ≡ inl boundary
    → (position < boundary) × (boundary ≤ stop)
unfolding scan
scan-bounds gear bits stop fingerprint position [] boundary h = ground arith
scan-bounds gear bits stop fingerprint position (b ∷ data_) boundary h = ground (
  arith,
  scan-bounds gear bits stop ((fingerprint / 2 + gear b) % 2 ^ 64) (position + 1) data_ boundary,
)

sum-cases : (s : ℕ ⊎ ℕ) → ((a : ℕ) × (s ≡ inl a)) ⊎ ((b : ℕ) × (s ≡ inr b))
sum-cases (inl a) = inl (a, refl)
sum-cases (inr b) = inr (b, refl)

module _ (gear : ℕ → ℕ) (sizes : ChunkSizes) where
  next_boundary-bounds :
      (data_ : Bytes)
      → IsChunkSizes sizes
      → 1 ≤ length data_
      → (1 ≤ next_boundary gear sizes data_)
        × (next_boundary gear sizes data_ ≤ sizes.maximum)
        × (next_boundary gear sizes data_ ≤ length data_)
        × ((sizes.minimum < next_boundary gear sizes data_)
            ⊎ (next_boundary gear sizes data_ ≡ length data_))
  unfolding next_boundary
  next_boundary-bounds data_ v h = elim (Bool-cases (leb (length data_) sizes.minimum)) [
    | inl e ↦ rw (e, next_boundary) (omega arith, ground arith, omega arith, inr refl)
    | inr e ↦
        elim (sum-cases
          (scan gear sizes.small_mask_bits normal 0 sizes.minimum (drop sizes.minimum data_))) [
            | inl (b, f) ↦
                let (above, inside) = scan-bounds gear _ _ _ _ _ b f in
                rw (e, next_boundary) (rw f (ground arith))
            | inr (g, f) ↦
                elim (sum-cases
                  (scan gear sizes.large_mask_bits limit g normal (drop normal data_))) [
                    | inl (b, k) ↦
                        let (above, inside) = scan-bounds gear _ _ _ _ _ b k in
                        rw (e, next_boundary) (rw f (rw k (ground arith)))
                    | inr (_, k) ↦ rw (e, next_boundary) (rw f (rw k (ground arith)))
                  ]
          ]
  ]
    where
      limit : ℕ
      limit = min (length data_) sizes.maximum

      normal : ℕ
      normal = min limit sizes.average

  split_from-Tiles :
      (fuel offset end : ℕ) (data_ : Bytes)
      → IsChunkSizes sizes
      → length data_ ≤ fuel
      → offset + length data_ ≡ end
      → Tiles offset end (split_from gear sizes fuel offset data_)
        × All (IsSized sizes end) (split_from gear sizes fuel offset data_)
  unfolding split_from
  split_from-Tiles zero offset end data_ v h g = (omega arith, tt)
  split_from-Tiles (suc fuel) offset end data_ v h g = elim (Bool-cases (length data_ == 0)) [
    | inl e ↦ rw (e, split_from) (ground arith, tt)
    | inr e ↦
        let taken = next_boundary gear sizes data_ in
        let (positive, maximal, inside, sized) = next_boundary-bounds data_ v (ground arith) in
        let (tiles, all_) =
          split_from-Tiles fuel (offset + taken) end (drop taken data_) v
            (omega (arith, length-drop taken data_)) (omega (arith, length-drop taken data_)) in
        rw (e, split_from) ((refl, tiles), ((positive, maximal, ground arith), all_))
  ]

  -- Of sizes as `Create` makes them and any data: the spans of `Split` tile the data from the
  -- first octet to the last, none is empty or longer than the maximum, and each of them except one
  -- that ends the data is longer than the minimum.
  pub split-Tiles :
      (data_ : Bytes)
      → IsChunkSizes sizes
      → Tiles 0 (length data_) (split gear sizes data_)
        × All (IsSized sizes (length data_)) (split gear sizes data_)
  unfolding split
  split-Tiles data_ v =
      split_from-Tiles (length data_) 0 (length data_) data_ v (omega arith) (omega arith)
