-- ===== src/Install/FetchPlanner/Requested.antt =====
-- What is requested for a plan.
use wgrd_mod_manager.Install.FetchPlanner.{
  ChunkDestination, Request, no_request, destination_of, request_chunk, request_chunks, stage_files,
  stage,
}
use wgrd_mod_manager.Install.StagedFiles.{IStagingFiles, seed}
use wgrd_mod_manager.Install.Plan.{ChunkPlacement, FilePlan, InstallPlan, is_remote}
use wgrd_mod_manager.Domain.FixedBytes.{to_hex}
use wgrd_mod_manager.Common.{
  ◌≡◌, refl, sym, ap, subst, ◌∙◌, inl, inr, true, false, none, some, List, [], ◌∷◌, ◌++◌, map,
  append-nil, append_assoc, arith, Bool-cases, some-injective, any, keep, All, All-append,
  All-imply, any-append, Bytes, same, same_iff, same_refl,
}
use wgrd_mod_manager.Domain.ChunkFileNaming.{suffix, file_name_for}

-- no text stands twice
abbrev pub AreDistinct : List Bytes → Type 0
AreDistinct [] = Unit
AreDistinct (a ∷ texts) = All (λ b. same b a ≡ false) texts × AreDistinct texts

append-AreDistinct :
    (texts : List Bytes) (b : Bytes)
    → any (same b) texts ≡ false
    → AreDistinct texts
    → AreDistinct (texts ++ b ∷ [])
append-AreDistinct [] b h d = (tt, tt)
append-AreDistinct (a ∷ texts) b h d = (
  All-append (λ c. same c a ≡ false) texts (b ∷ []) d.0 (ground arith, tt),
  append-AreDistinct texts b (ground arith) d.1,
)

abbrev name_of_hex : Bytes → Bytes
name_of_hex digest = digest ++ suffix

-- A request that is in order: one file is wanted for each digest seen, no digest is seen twice, and
-- the chunk of each destination has been seen.
pub record IsRequest (q : Request) : Type 0 where
  pub named : q.wanted_files ≡ map name_of_hex q.seen
  pub distinct : AreDistinct q.seen
  pub wanted : All (λ d. any (same d.chunk_file_name) q.wanted_files ≡ true) q.destinations

map-append : {A B : Type 0} (f : A → B) (xs ys : List A) → map f (xs ++ ys) ≡ map f xs ++ map f ys
map-append f [] ys = refl
map-append f (x ∷ xs) ys = ap (◌∷◌ (f x)) (map-append f xs ys)

-- what is seen is wanted
seen_wanted :
    (digest : Bytes) (seen : List Bytes)
    → any (same digest) seen ≡ true
    → any (same (name_of_hex digest)) (map name_of_hex seen) ≡ true
seen_wanted digest [] h = h
seen_wanted digest (a ∷ seen) h = elim (Bool-cases (same digest a)) [
  | inl e ↦
      let q : same (name_of_hex digest) (name_of_hex a) ≡ true =
        (same_iff (name_of_hex digest) (name_of_hex a)).1
          (ap name_of_hex ((same_iff digest a).0 e)) in
      rw q refl
  | inr e ↦ ground (arith, e, h, seen_wanted digest seen)
]

request_chunk-IsRequest :
    (q : Request) (staged : Bytes) (p : ChunkPlacement)
    → IsRequest q
    → IsRequest (request_chunk q staged p)
unfolding request_chunk file_name_for
request_chunk-IsRequest q staged p v = elim (Bool-cases (is_remote p.source)) [
  | inr r ↦ rw (r, request_chunk) v
  | inl r ↦ elim (Bool-cases (any (same (to_hex p.digest)) q.seen)) [
    | inl e ↦
        let w : any (same (name_of_hex (to_hex p.digest))) q.wanted_files ≡ true =
          ap (any (same (name_of_hex (to_hex p.digest)))) v.named
          ∙ seen_wanted (to_hex p.digest) q.seen e in
        rw (r, request_chunk)
          (rw e record {
            named = v.named;
            distinct = v.distinct;
            wanted =
                All-append (λ d. any (same d.chunk_file_name) q.wanted_files ≡ true) q.destinations
                  (destination_of staged p ∷ []) v.wanted (w, tt);
          })
    | inr e ↦
        let name = name_of_hex (to_hex p.digest) in
        let after = q.wanted_files ++ name ∷ [] in
        let own : any (same name) after ≡ true =
          ground (arith, any-append (same name) q.wanted_files (name ∷ []), same_refl name) in
        rw (r, request_chunk)
          (rw e record {
            named =
                ap (λ xs. xs ++ name ∷ []) v.named
                ∙ sym (map-append name_of_hex q.seen (to_hex p.digest ∷ []));
            distinct = append-AreDistinct q.seen (to_hex p.digest) e v.distinct;
            wanted =
                All-append (λ d. any (same d.chunk_file_name) after ≡ true) q.destinations
                  (destination_of staged p ∷ [])
                  (All-imply (λ d. any (same d.chunk_file_name) q.wanted_files ≡ true)
                    (λ d. any (same d.chunk_file_name) after ≡ true)
                    (λ d h.
                      ground
                        (arith, h, any-append (same d.chunk_file_name) q.wanted_files (name ∷ [])))
                    q.destinations v.wanted)
                  (own, tt);
          })
  ]
]

-- where the chunks of a file that are fetched go, in order
abbrev pub fetched : Bytes → List ChunkPlacement → List ChunkDestination
fetched staged placements = map (destination_of staged) (keep (λ p. is_remote p.source) placements)

request_chunk-destinations :
    (q : Request) (staged : Bytes) (p : ChunkPlacement) (placements : List ChunkPlacement)
    → (request_chunk q staged p).destinations ++ fetched staged placements
      ≡ q.destinations ++ fetched staged (p ∷ placements)
unfolding request_chunk
request_chunk-destinations q staged p placements = elim (Bool-cases (is_remote p.source)) [
  | inr r ↦ rw r refl
  | inl r ↦ elim (Bool-cases (any (same (to_hex p.digest)) q.seen)) [
    | inl e ↦ rw r (
        rw e
          (append_assoc q.destinations (destination_of staged p ∷ []) (fetched staged placements)))
    | inr e ↦ rw r (
        rw e
          (append_assoc q.destinations (destination_of staged p ∷ []) (fetched staged placements)))
  ]
]

request_chunks_lem :
    (q : Request) (staged : Bytes) (placements : List ChunkPlacement)
    → IsRequest q
    → IsRequest (request_chunks q staged placements)
      × ((request_chunks q staged placements).destinations
          ≡ q.destinations ++ fetched staged placements)
unfolding request_chunks
request_chunks_lem q staged [] v = (v, sym (append-nil q.destinations))
request_chunks_lem q staged (p ∷ placements) v =
    let (w, e) =
      request_chunks_lem (request_chunk q staged p) staged placements
        (request_chunk-IsRequest q staged p v) in
    (w, e ∙ request_chunk-destinations q staged p placements)

module _ (hash : Bytes → Bytes) (join : Bytes → Bytes → Bytes) {W : Type 0} (i : IStagingFiles W)
    (mod_folder suffix_ : Bytes) where
  -- where the chunks of a plan that are fetched go
  abbrev pub all_fetched : List FilePlan → List ChunkDestination
  all_fetched [] = []
  all_fetched (f ∷ files) =
      fetched (join mod_folder f.path ++ suffix_) f.placements ++ all_fetched files

  stage_files_lem :
      (w : W) (q r : Request) (files : List FilePlan)
      → IsRequest q
      → (stage_files hash join i mod_folder suffix_ w q files).0 ≡ some r
      → IsRequest r × (r.destinations ≡ q.destinations ++ all_fetched files)
  unfolding stage_files
  stage_files_lem w q r [] v e =
      subst (λ r. IsRequest r × (r.destinations ≡ q.destinations ++ [])) (some-injective e)
        (v, sym (append-nil q.destinations))
  stage_files_lem w q r (f ∷ files) v e =
      let original = join mod_folder f.path in
      let staged = original ++ suffix_ in
      let s = seed hash i w original staged f q.resumed in
      let q' = record q { resumed = s.1 } in
      let v' : IsRequest q' = record {
        named = v.named;
        distinct = v.distinct;
        wanted = v.wanted;
      } in
      let (u, d) = request_chunks_lem q' staged f.placements v' in
      elim (Bool-cases s.0.0) [
        | inl h ↦
            let q'' = request_chunks q' staged f.placements in
            let g : (stage_files hash join i mod_folder suffix_ w q (f ∷ files)).0
                ≡ (stage_files hash join i mod_folder suffix_ s.0.1 q'' files).0 =
              rw (h, stage_files) refl in
            let (x, y) = stage_files_lem s.0.1 q'' r files u (sym g ∙ e) in
            (
              x,
              y
                  ∙ ap (λ ds. ds ++ all_fetched files) d
                  ∙ append_assoc q.destinations (fetched staged f.placements) (all_fetched files),
            )
        | inr h ↦ absurd (failed (sym (rw (h, stage_files) refl) ∙ e))
      ]
    where
      failed : none ≡ some r → ⊥
      failed e = cc

  -- When `Stage` does not fail, what it requests is in order: the destinations are those of the
  -- plan's chunks that are not at hand, file by file, each in the staged file at its offset; each
  -- destination's chunk is wanted, and no chunk is wanted twice, however many places it goes to.
  pub stage-IsRequest :
      (w : W) (plan : InstallPlan) (r : Request)
      → (stage hash join i mod_folder suffix_ w plan).0 ≡ some r
      → IsRequest r × (r.destinations ≡ all_fetched plan.files)
  unfolding stage
  stage-IsRequest w plan r e =
      stage_files_lem w no_request r plan.files
        (record { named = refl; distinct = tt; wanted = tt }) e
