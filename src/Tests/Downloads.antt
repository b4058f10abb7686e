-- ===== src/Tests/Downloads.antt =====
-- What is fetched, and from where updates come.
use wgrd_mod_manager.Update.DownloadHostPolicy.Allowed.{
  IsRest, IsHost, accepts-IsHost, accepts_allowed,
}
use wgrd_mod_manager.Update.DownloadHostPolicy.{before_boundary, same_host, host_of, accepts}
use wgrd_mod_manager.Common.{
  ℕ, ◌≡◌, refl, inl, true, false, none, some, [], ◌∷◌, ◌++◌, arith, Bytes, codes, same,
}
use wgrd_mod_manager.Update.VersionNumber.RoundTrip.{parse_version-to_text}
use wgrd_mod_manager.Update.VersionNumber.{VersionNumber, parse_version, to_text}
use wgrd_mod_manager.Domain.FixedBytes.{to_hex}
use wgrd_mod_manager.Domain.ChunkFileNaming.{file_name_for}
use wgrd_mod_manager.Install.Plan.{remote, ChunkPlacement, InstallPlan}
use wgrd_mod_manager.Install.StagedFiles.{IStagingFiles, copy_from_original, resize, seed}
use wgrd_mod_manager.Install.FetchPlanner.{
  Request, destination_of, request_chunk, request_chunks, stage_files, stage,
}
use wgrd_mod_manager.Install.FetchPlanner.Requested.{IsRequest, all_fetched, stage-IsRequest}

abbrev release_url : Bytes
release_url = codes "https://GitHub.com/a/b?c"

release_url-accepts : accepts release_url ≡ true
unfolding accepts host_of before_boundary same_host same
release_url-accepts = refl

accepts-IsHost_example :
    (host : Bytes) × (rest : Bytes) × (release_url ≡ codes "https://" ++ (host ++ rest))
    × IsRest rest
    × IsHost host
accepts-IsHost_example = accepts-IsHost release_url release_url-accepts

accepts_allowed_example : accepts release_url ≡ true
accepts_allowed_example =
    accepts_allowed (codes "GitHub.com") (codes "/a/b?c") (inl refl) (inl refl)

-- a file system without files, in which nothing fails
abbrev no_files : IStagingFiles (Unit {0})
no_files = record {
  map_file = λ w file. none;
  create_directories = λ w file. (true, w);
  is_regular_file = λ w file. false;
  copy_file = λ w from to. (true, w);
  create = λ w file. (true, w);
  remove = λ w file. w;
  resize_file = λ w file size. (true, w);
}

abbrev fetched_chunk : ℕ → ChunkPlacement
fetched_chunk offset = record {
  digest = 1 ∷ 2 ∷ [];
  target_offset = offset;
  length = 4;
  source = remote;
  held_file = [];
  held_offset = 0;
}

-- a file that has the same chunk twice
abbrev plan : InstallPlan
plan = record {
  files =
      record { path = codes "a"; size = 8; placements = fetched_chunk 0 ∷ fetched_chunk 4 ∷ [] }
      ∷ [];
  removals = [];
}

abbrev under : Bytes → Bytes → Bytes
under folder path = folder ++ (b'/' ∷ path)

abbrev request : Request
request = record {
  wanted_files = file_name_for (1 ∷ 2 ∷ []) ∷ [];
  destinations =
      destination_of (codes "mods/a.part") (fetched_chunk 0)
      ∷ destination_of (codes "mods/a.part") (fetched_chunk 4)
      ∷ [];
  resumed = false;
  seen = to_hex (1 ∷ 2 ∷ []) ∷ [];
}

plan-stage : (stage (λ b. b) under no_files (codes "mods") (codes ".part") tt plan).0 ≡ some request
unfolding stage stage_files request_chunks request_chunk seed resize copy_from_original same to_hex
plan-stage = refl

stage-IsRequest_example :
    IsRequest request
    × (request.destinations
        ≡ all_fetched (λ b. b) under no_files (codes "mods") (codes ".part") plan.files)
stage-IsRequest_example =
    stage-IsRequest (λ b. b) under no_files (codes "mods") (codes ".part") tt plan request
      plan-stage

abbrev version : VersionNumber
version = record { major = 1; minor = 20; patch = 0 }

parse_version-to_text_example : parse_version (to_text version) ≡ some version
parse_version-to_text_example =
    parse_version-to_text version
      (record { major_lt = omega arith; minor_lt = omega arith; patch_lt = omega arith })
