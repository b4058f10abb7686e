-- ===== src/Install/Differ/Sound.antt =====
-- Where the chunks of a plan come from.
use wgrd_mod_manager.Common.{
  ◌≡◌, refl, sym, subst, inl, inr, Option, none, some, List, [], ◌∷◌, map, arith, ◌==◌, Bool-cases,
  Option-cases, All, Any, Bytes, AreBytes,
}
use wgrd_mod_manager.Install.Differ.{
  HeldChunkIndex, try_emplace, file_unchanged, index_chunks, index_files, index_held_chunks, place,
  plan_files, diff,
}
use wgrd_mod_manager.Install.Plan.{remote, ChunkPlacement}
use wgrd_mod_manager.Domain.FixedBytes.Hex.{to_hex-injective}
use wgrd_mod_manager.Common.Table.Laws.{All-find, All-insert}
use wgrd_mod_manager.Common.Table.{find}
use wgrd_mod_manager.Domain.FixedBytes.{to_hex}
use wgrd_mod_manager.Domain.Manifest.{ManifestChunk, ManifestFile, ModManifest, HeldChunkLocation}

-- an element of a list
abbrev pub In : {A : Type 0} → A → List A → Type 0
In x xs = Any (λ y. y ≡ x) xs

pub All-In : {A : Type 0} (P : A → Type 0) (xs : List A) → ((x : A) → In x xs → P x) → All P xs
All-In P [] h = tt
All-In P (x ∷ xs) h = (h x (inl refl), All-In P xs (λ y m. h y (inr m)))

at-In : {A : Type 0} (P : A → Type 0) (xs : List A) (x : A) → All P xs → In x xs → P x
at-In P [] x a m = absurd m
at-In P (y ∷ xs) x a (inl e) = subst P e a.0
at-In P (y ∷ xs) x a (inr m) = at-In P xs x a.1 m

-- every digest is a string of octets
abbrev pub AreDigests : List ManifestFile → Type 0
AreDigests files = All (λ f. All (λ c. AreBytes c.digest) f.chunks) files

-- Where a location comes from: a chunk of one of the held files.
pub record Origin (join : Bytes → Bytes → Bytes) (root : Bytes) (files : List ManifestFile)
    (key : Bytes) (location : HeldChunkLocation) : Type 0 where
  pub file : ManifestFile
  pub chunk : ManifestChunk
  pub of_held : In file files
  pub of_file : In chunk file.chunks
  pub digest_fits : key ≡ to_hex chunk.digest
  pub file_fits : location.file ≡ join root file.path
  pub offset_fits : location.offset ≡ chunk.offset

module _ (join : Bytes → Bytes → Bytes) (P : Bytes × HeldChunkLocation → Type 0) where
  All-index_chunks :
      (file : Bytes) (chunks : List ManifestChunk) (index : HeldChunkIndex)
      → All
          (λ c. P (to_hex c.digest, record { file = file; offset = c.offset; length = c.length }))
          chunks
      → All P index
      → All P (index_chunks join file chunks index)
  unfolding index_chunks try_emplace
  All-index_chunks file [] index h v = v
  All-index_chunks file (c ∷ chunks) index h v =
      elim (Option-cases (find (to_hex c.digest) index)) [
        | inl e ↦
            All-index_chunks file chunks _ h.1 (rw (e, try_emplace) (All-insert P _ _ index h.0 v))
        | inr (l, e) ↦ All-index_chunks file chunks _ h.1 (rw (e, try_emplace) v)
      ]

  All-index_files :
      (root : Bytes) (files : List ManifestFile) (index : HeldChunkIndex)
      → All
          (λ f.
            All
              (λ c. P (
                to_hex c.digest,
                record { file = join root f.path; offset = c.offset; length = c.length },
              ))
              f.chunks)
          files
      → All P index
      → All P (index_files join root files index)
  unfolding index_files
  All-index_files root [] index h v = v
  All-index_files root (f ∷ files) index h v =
      All-index_files root files _ h.1 (All-index_chunks (join root f.path) f.chunks index h.0 v)

index_held_chunks-Origin :
    (join : Bytes → Bytes → Bytes) (m : ModManifest) (root : Bytes)
    → All (λ e. Origin join root m.files e.0 e.1) (index_held_chunks join m root)
unfolding index_held_chunks
index_held_chunks-Origin join m root =
    All-index_files join (λ e. Origin join root m.files e.0 e.1) root m.files []
      (All-In _ m.files (λ f i. All-In _ f.chunks (λ c j. record {
        file = f;
        chunk = c;
        of_held = i;
        of_file = j;
        digest_fits = refl;
        file_fits = refl;
        offset_fits = refl;
      })))
      tt

-- A held placement lies at a chunk of its digest in a held file, or where the catalogue locates
-- the digest with the length of the placement.
pub data IsSourced (join : Bytes → Bytes → Bytes) (locate : Bytes → Option HeldChunkLocation)
    (root : Bytes) (files : List ManifestFile) (p : ChunkPlacement) : Type 0 where
  by_network : p.source ≡ remote → IsSourced join locate root files p
  by_release :
      (f : ManifestFile) (c : ManifestChunk)
      → In f files
      → In c f.chunks
      → c.digest ≡ p.digest
      → p.held_file ≡ join root f.path
      → p.held_offset ≡ c.offset
      → IsSourced join locate root files p
  by_catalogue :
      (l : HeldChunkLocation)
      → locate p.digest ≡ some l
      → l.length ≡ p.length
      → p.held_file ≡ l.file
      → p.held_offset ≡ l.offset
      → IsSourced join locate root files p

module _ (join : Bytes → Bytes → Bytes) (locate : Bytes → Option HeldChunkLocation)
    (m : ModManifest) (root : Bytes) (digests : AreDigests m.files) where
  abbrev Sourced : ChunkPlacement → Type 0
  Sourced = IsSourced join locate root m.files

  place-catalogued :
      (c : ManifestChunk)
      → find (to_hex c.digest) (index_held_chunks join m root) ≡ none
      → Sourced (place locate (index_held_chunks join m root) c)
  unfolding place
  place-catalogued c e = elim (Option-cases (locate c.digest)) [
    | inl k ↦ rw (e, place) (rw k (by_network refl))
    | inr (l, k) ↦ elim (Bool-cases (l.length == c.length)) [
      | inl g ↦ rw (e, place) (rw k (rw g (by_catalogue l k (ground arith) refl refl)))
      | inr g ↦ rw (e, place) (rw k (rw g (by_network refl)))
    ]
  ]

  place-Sourced :
      (c : ManifestChunk)
      → AreBytes c.digest
      → Sourced (place locate (index_held_chunks join m root) c)
  unfolding place
  place-Sourced c b = elim (Option-cases (find (to_hex c.digest) (index_held_chunks join m root))) [
    | inl e ↦ place-catalogued c e
    | inr (l, e) ↦
        let o =
          All-find (λ e. Origin join root m.files e.0 e.1) _ _
            (index_held_chunks-Origin join m root) e in
        let octets =
          at-In (λ d. AreBytes d.digest) o.file.chunks o.chunk
            (at-In (λ f. All (λ d. AreBytes d.digest) f.chunks) m.files o.file digests o.of_held)
            o.of_file in
        rw (e, place)
          (by_release o.file o.chunk o.of_held o.of_file
            (sym (to_hex-injective c.digest o.chunk.digest b octets o.digest_fits)) o.file_fits
            o.offset_fits)
  ]

  All-map-place :
      (chunks : List ManifestChunk)
      → All (λ c. AreBytes c.digest) chunks
      → All Sourced (map (place locate (index_held_chunks join m root)) chunks)
  All-map-place [] h = tt
  All-map-place (c ∷ chunks) h = (place-Sourced c h.0, All-map-place chunks h.1)

  plan_files-Sourced :
      (files : List ManifestFile)
      → AreDigests files
      → All
          (λ f. All Sourced f.placements)
          (plan_files locate m (index_held_chunks join m root) files)
  unfolding plan_files
  plan_files-Sourced [] h = tt
  plan_files-Sourced (f ∷ files) h = elim (Bool-cases (file_unchanged m f)) [
    | inl e ↦ rw (e, plan_files) (plan_files-Sourced files h.1)
    | inr e ↦ rw (e, plan_files) (All-map-place f.chunks h.0, plan_files-Sourced files h.1)
  ]

  -- With all digests strings of octets, each placement of a plan is fetched, or it copies from
  -- where a held file has a chunk of its digest, or from where the catalogue locates its digest
  -- with its length.
  pub diff-IsSourced :
      (target : ModManifest)
      → AreDigests target.files
      → All
          (λ f. All (IsSourced join locate root m.files) f.placements)
          (diff join m root target locate).files
  unfolding diff
  diff-IsSourced target h = plan_files-Sourced target.files h
