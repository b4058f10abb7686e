-- ===== src/Install/Auditor/Intact.antt =====
-- A mod that is installed as it was published passes the audit.

use wgrd_mod_manager.Install.Auditor.Damage.{
  lacks, lacks_any, repair_of, lacking_chunks, examine_found,
}
use wgrd_mod_manager.Common.{
  ℕ, ◌+◌, ◌%◌, ◌^◌, ◌≤◌, ◌<◌, ◌≡◌, refl, sym, ap, ap₂, subst, ◌∙◌, Bool, true, false, not, ◌||◌,
  some, List, [], ◌∷◌, map, arith, ==_iff, some-injective, length, any, keep, All, Bytes, same,
  same_iff,
}
use wgrd_mod_manager.Install.Auditor.{IInstalled, content_of, is_present, examine}
use wgrd_mod_manager.Payload.Paths.{extension_file_name}
use wgrd_mod_manager.Chunk.Lister.{subspan, chunk_of, describe}
use wgrd_mod_manager.Chunk.Chunker.Cover.{Tiles, Tiles-le, IsSized, split-Tiles}
use wgrd_mod_manager.Chunk.Chunker.{ChunkSpan, split}
use wgrd_mod_manager.Chunk.Sizes.{ChunkSizes, IsChunkSizes}
use wgrd_mod_manager.Domain.Manifest.{ManifestFile, ModManifest}

module _ (i : IInstalled) (mod_folder : Bytes) (gear : ℕ → ℕ) (sizes : ChunkSizes) where
  -- the file of the manifest describes the file that is installed
  pub record IsIntact (f : ManifestFile) : Type 0 where
    pub content : Bytes
    pub opens : i.open_file (i.join mod_folder f.path) ≡ some content
    pub approved : (not (same f.path extension_file_name) || i.verifies content) ≡ true
    pub described : describe i.hash gear sizes (some content) f.path ≡ some f
    pub length_max : length content < 2 ^ 64

  chunk_of_present :
      (content : Bytes) (s : ChunkSpan)
      → s.offset + s.length ≤ length content
      → s.length < 2 ^ 32
      → length content < 2 ^ 64
      → is_present i mod_folder (some content) (chunk_of i.hash content s) ≡ true
  unfolding is_present chunk_of
  chunk_of_present content s h l m =
      let o : s.offset % 2 ^ 64 ≡ s.offset = omega (arith, h, m) in
      let n : s.length % 2 ^ 32 ≡ s.length = omega (arith, l) in
      let d : subspan content (s.offset % 2 ^ 64) (s.length % 2 ^ 32)
          ≡ subspan content s.offset s.length =
        ap₂ (subspan content) o n in
      let e = ap i.hash d in
      ground (
        arith,
        o,
        n,
        h,
        m,
        (same_iff (i.hash (subspan content (s.offset % 2 ^ 64) (s.length % 2 ^ 32)))
              (i.hash (subspan content s.offset s.length))).1
            e,
      )

  chunks_present :
      (content : Bytes) (offset : ℕ) (spans : List ChunkSpan)
      → sizes.maximum < 2 ^ 32
      → length content < 2 ^ 64
      → offset ≤ length content
      → Tiles offset (length content) spans
      → All (IsSized sizes (length content)) spans
      → any
          (λ c. not (is_present i mod_folder (some content) c))
          (map (chunk_of i.hash content) spans)
        ≡ false
  chunks_present content offset [] m e o t a = refl
  chunks_present content offset (s ∷ spans) m e o t a =
      let inside = Tiles-le (offset + s.length) (length content) spans t.1 in
      rw (chunk_of_present content s (omega (arith, t.0, inside)) (omega (arith, m, a.0.1)) e)
        (chunks_present content (offset + s.length) spans m e inside t.1 a.1)

  intact-content_of :
      (f : ManifestFile) (t : IsIntact f) → content_of i mod_folder f ≡ some t.content
  unfolding describe content_of
  intact-content_of f t =
      let size : length t.content ≡ f.size =
        ap (λ (x : ManifestFile). x.size) (some-injective t.described) in
      rw (t.opens, content_of) (rw t.approved (rw ((==_iff (length t.content) f.size).1 size) refl))

  intact-lacks_any :
      (f : ManifestFile)
      → IsChunkSizes sizes
      → sizes.maximum < 2 ^ 32
      → IsIntact f
      → lacks_any i mod_folder f ≡ false
  unfolding describe
  intact-lacks_any f v m t =
      let chunks : map (chunk_of i.hash t.content) (split gear sizes t.content) ≡ f.chunks =
        ap (λ (x : ManifestFile). x.chunks) (some-injective t.described) in
      let (tiles, sized) = split-Tiles gear sizes t.content v in
      let clean =
        chunks_present t.content 0 (split gear sizes t.content) m t.length_max (omega arith) tiles
          sized in
      subst (λ o. any (λ c. not (is_present i mod_folder o c)) f.chunks ≡ false)
        (sym (intact-content_of f t))
        (subst (λ cs. any (λ c. not (is_present i mod_folder (some t.content) c)) cs ≡ false) chunks
          clean)

  -- A mod passes the audit, with no file damaged and no chunk counted, when its chunk sizes are as
  -- `Create` makes them with a maximum below 2^32 octets, and each of its files opens with the very
  -- content that the manifest was made from, of less than 2^64 octets, and for the extension's file
  -- the verifier of signed extensions approves that content.
  pub examine-IsIntact :
      (m : ModManifest)
      → IsChunkSizes sizes
      → sizes.maximum < 2 ^ 32
      → All IsIntact m.files
      → ((examine i mod_folder m).damaged_files ≡ [])
        × ((examine i mod_folder m).damaged_chunks ≡ 0)
  examine-IsIntact m v l a =
      let (p, d) = examine_found i mod_folder m in
      let (q, e) = none_damaged m.files a in (p ∙ ap (map (repair_of i mod_folder)) q, d ∙ e)
    where
      length-keep-none :
          {A : Type 0} (p : A → Bool) (xs : List A) → any p xs ≡ false → length (keep p xs) ≡ 0
      length-keep-none p [] h = refl
      length-keep-none p (x ∷ xs) h = ground (arith, length-keep-none p xs)

      none_damaged :
          (files : List ManifestFile)
          → All IsIntact files
          → (keep (lacks_any i mod_folder) files ≡ []) × (lacking_chunks i mod_folder files ≡ 0)
      none_damaged [] a = (refl, refl)
      none_damaged (f ∷ files) a =
          let h = intact-lacks_any f v l a.0 in
          let (q, e) = none_damaged files a.1 in
          (rw h q, omega (arith, e, length-keep-none (lacks i mod_folder f) f.chunks h))
