-- ===== src/Transfer/FetchState/Status.antt =====
-- src/domain/interfaces/content/IChunkFetcher.h: how far a fetch is.
use wgrd_mod_manager.Common.{ℕ, Bool, true, false, [], Bytes}

pub data FetchPhase : Type 0 where
  idle metadata downloading complete failed : FetchPhase

pub record FetchStatus : Type 0 where
  pub phase : FetchPhase
  pub identifier : Bytes
  pub fetched_bytes : ℕ
  pub in_flight_bytes : ℕ
  pub wanted_bytes : ℕ
  pub peers : ℕ
  pub hash_failures : ℕ
  pub banned_peers : ℕ
  pub pending_writes : ℕ
  pub settling : Bool
  pub last_failure : Bytes
  pub staging_folder : Bytes

abbrev pub no_fetch : FetchStatus
no_fetch = record {
  phase = idle;
  identifier = [];
  fetched_bytes = 0;
  in_flight_bytes = 0;
  wanted_bytes = 0;
  peers = 0;
  hash_failures = 0;
  banned_peers = 0;
  pending_writes = 0;
  settling = false;
  last_failure = [];
  staging_folder = [];
}

abbrev pub is_busy_phase : FetchPhase → Bool
is_busy_phase idle = false
is_busy_phase metadata = true
is_busy_phase downloading = true
is_busy_phase complete = false
is_busy_phase failed = false

abbrev pub is_busy : FetchStatus → Bool
is_busy f = is_busy_phase f.phase
