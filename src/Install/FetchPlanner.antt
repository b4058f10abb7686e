-- ===== src/Install/FetchPlanner.antt =====
-- src/manager/install/FetchPlanner: which chunks of a plan are fetched, and where each of them goes.
pub mod Requested
use wgrd_mod_manager.Common.{
  ℕ, Bool, false, not, Option, none, some, List, [], ◌∷◌, ◌++◌, if◌then◌else◌, length, any, Bytes,
  same,
}
use wgrd_mod_manager.Domain.FixedBytes.{to_hex}
use wgrd_mod_manager.Domain.ChunkFileNaming.{file_name_for}
use wgrd_mod_manager.Install.Plan.{ChunkPlacement, FilePlan, InstallPlan, is_remote}
use wgrd_mod_manager.Install.StagedFiles.{IStagingFiles, seed}

-- src/domain/types/content/ChunkDestination.h
pub record ChunkDestination : Type 0 where
  pub chunk_file_name : Bytes
  pub file : Bytes
  pub offset : ℕ
  pub length : ℕ

-- `Request`, and the digests that were `seen`, the first one first
pub record Request : Type 0 where
  pub wanted_files : List Bytes
  pub destinations : List ChunkDestination
  pub resumed : Bool
  pub seen : List Bytes

abbrev pub no_request : Request
no_request = record { wanted_files = []; destinations = []; resumed = false; seen = [] }

abbrev pub destination_of : Bytes → ChunkPlacement → ChunkDestination
destination_of staged p = record {
  chunk_file_name = file_name_for p.digest;
  file = staged;
  offset = p.target_offset;
  length = p.length;
}

-- a turn of the inner loop of `Stage`
unfoldable pub request_chunk : Request → Bytes → ChunkPlacement → Request
request_chunk q staged p =
    let digest = to_hex p.digest in
    let destinations = q.destinations ++ destination_of staged p ∷ [] in
    if not (is_remote p.source)
    then q
    else if any (same digest) q.seen
    then record q { destinations = destinations }
    else record q {
      destinations = destinations;
      wanted_files = q.wanted_files ++ file_name_for p.digest ∷ [];
      seen = q.seen ++ digest ∷ [];
    }

unfoldable pub request_chunks : Request → Bytes → List ChunkPlacement → Request
request_chunks q staged [] = q
request_chunks q staged (p ∷ placements) =
    request_chunks (request_chunk q staged p) staged placements

module _ (hash : Bytes → Bytes) (join : Bytes → Bytes → Bytes) {W : Type 0} (i : IStagingFiles W)
    (mod_folder suffix_ : Bytes) where
  -- the outer loop of `Stage`
  unfoldable pub stage_files : W → Request → List FilePlan → Option Request × W
  stage_files w q [] = (some q, w)
  stage_files w q (f ∷ files) =
      let original = join mod_folder f.path in
      let staged = original ++ suffix_ in
      let ((seeded, w'), resumed) = seed hash i w original staged f q.resumed in
      let rest =
        stage_files w' (request_chunks (record q { resumed = resumed }) staged f.placements)
          files in
      if seeded then rest else (none, w')

  unfoldable pub stage : W → InstallPlan → Option Request × W
  stage w plan = stage_files w no_request plan.files
