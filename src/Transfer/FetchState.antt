-- ===== src/Transfer/FetchState.antt =====
-- src/downloader/transfer/FetchState and the types of
-- src/domain/interfaces/content/IChunkFetcher.h: the one fetch that may be under way. Each method
-- holds the lock for its whole body, so a method is one step. A torrent handle of libtorrent is a
-- number; whether it `is_valid` is an argument. A `std::set` of file names is the list of them.
mod Status
pub mod Removal
pub mod Confirm
pub use Status.*
use wgrd_mod_manager.Common.{
  ℕ, ◌+◌, ◌%◌, ◌^◌, Bool, true, false, not, ◌&&◌, ◌||◌, Option, none, some, List, [], ◌∷◌, ◌++◌,
  ltb, leb, ◌==◌, if◌then◌else◌, length, Bytes,
}

abbrev pub complete_confirmations : ℕ
complete_confirmations = 3

pub record FetchState : Type 0 where
  pub fetch : FetchStatus
  pub fetching : Option ℕ
  pub wanted : List Bytes
  pub prioritised : Bool
  pub settled_polls : ℕ
  pub removing : List ℕ
  pub clear_pending : Bool

pub record FetchRetirement : Type 0 where
  pub to_remove : Option ℕ
  pub clear_now : Bool

abbrev pub initial : FetchState
initial = record {
  fetch = no_fetch;
  fetching = none;
  wanted = [];
  prioritised = false;
  settled_polls = 0;
  removing = [];
  clear_pending = false;
}

unfoldable pub reserve : FetchState → Bytes → Bytes → List Bytes → Bool × FetchState
reserve s identifier staging_folder wanted_files = if is_busy s.fetch then (false, s) else (
  true,
  record s {
    fetch = record no_fetch {
      phase = metadata;
      identifier = identifier;
      staging_folder = staging_folder;
    };
    wanted = wanted_files;
    prioritised = false;
    settled_polls = 0;
  },
)

unfoldable pub adopt : FetchState → ℕ → FetchState
adopt s handle = record s { fetching = some handle }

unfoldable pub release : FetchState → FetchState
release s = record s {
  fetching = none;
  wanted = [];
  prioritised = false;
  settled_polls = 0;
  fetch = record (s.fetch) { phase = idle };
}

-- the handle that `Retire` begins to remove
unfoldable pub to_retire : (ℕ → Bool) → FetchState → Option ℕ
to_retire is_valid s = elim s.fetching [
  | none ↦ none
  | some handle ↦ if is_valid handle then some handle else none
]

-- `_removing` with the handle that `Retire` adds
unfoldable pub removing_after : Option ℕ → List ℕ → List ℕ
removing_after none removing = removing
removing_after (some handle) removing = removing ++ handle ∷ []

unfoldable pub retire : (ℕ → Bool) → FetchState → FetchRetirement × FetchState
retire is_valid s =
    let to_remove = to_retire is_valid s in
    let removing = removing_after to_remove s.removing in
    let none_left = length removing == 0 in
    (
      record { to_remove = to_remove; clear_now = none_left },
      record s {
        removing = removing;
        clear_pending = if none_left then s.clear_pending else true;
        fetching = none;
        wanted = [];
        prioritised = false;
        settled_polls = 0;
        fetch = if is_busy s.fetch then record (s.fetch) { phase = idle } else s.fetch;
      },
    )

-- `std::ranges::find` and `erase`: the list without the first occurrence, if there is one
unfoldable pub remove_handle : ℕ → List ℕ → Option (List ℕ)
remove_handle handle [] = none
remove_handle handle (h ∷ hs) =
    if h == handle
    then some hs
    else elim (remove_handle handle hs) [ none ↦ none | some rest ↦ some (h ∷ rest) ]

unfoldable pub confirm_removal : FetchState → ℕ → Bool × FetchState
confirm_removal s handle = elim (remove_handle handle s.removing) [
  | none ↦ (false, s)
  | some removing ↦
      if ltb 0 (length removing) || not s.clear_pending
      then (false, record s { removing = removing })
      else (true, record s { removing = removing; clear_pending = false })
]

unfoldable pub abandon_pending_clear : FetchState → Bool × FetchState
abandon_pending_clear s =
    if s.clear_pending then (true, record s { clear_pending = false }) else (false, s)

unfoldable pub mark_prioritised : FetchState → ℕ → FetchState
mark_prioritised s wanted_bytes = record s {
  fetch = record (s.fetch) {
    wanted_bytes = wanted_bytes;
    phase = elim s.fetch.phase [ metadata ↦ downloading | phase ↦ phase ];
  };
  prioritised = true;
}

unfoldable pub count_hash_failure : FetchState → Bytes → FetchState
count_hash_failure s failure =
    if is_busy s.fetch
    then record s {
      fetch = record (s.fetch) {
        hash_failures = (s.fetch.hash_failures + 1) % 2 ^ 64;
        last_failure = failure;
      };
    }
    else s

unfoldable pub count_banned_peer : FetchState → Bytes → FetchState
count_banned_peer s failure =
    if is_busy s.fetch
    then record s {
      fetch = record (s.fetch) {
        banned_peers = (s.fetch.banned_peers + 1) % 2 ^ 64;
        last_failure = failure;
      };
    }
    else s

unfoldable pub fail : FetchState → Bytes → FetchState
fail s failure =
    if is_busy s.fetch
    then record s { fetch = record (s.fetch) { phase = failed; last_failure = failure } }
    else s

-- What a poll of the torrent tells `Update`.
pub record Poll : Type 0 where
  pub peers : ℕ
  pub fetched_bytes : ℕ
  pub in_flight_bytes : ℕ
  pub finished : Bool
  pub writes_settled : Bool
  pub pending_writes : ℕ

-- `finished || wantedComplete`
abbrev pub is_fetched : ℕ → Poll → Bool
is_fetched wanted_bytes p = p.finished || (ltb 0 wanted_bytes && leb wanted_bytes p.fetched_bytes)

unfoldable pub update : FetchState → Poll → FetchState
update s p =
    let polled = record s {
      fetch = record (s.fetch) {
        peers = p.peers;
        fetched_bytes = p.fetched_bytes;
        in_flight_bytes = p.in_flight_bytes;
        pending_writes = p.pending_writes;
        settling = s.prioritised && is_fetched s.fetch.wanted_bytes p && not p.writes_settled;
      };
    } in
    if not (is_busy s.fetch)
    then s
    else if not s.prioritised || not p.writes_settled || not (is_fetched s.fetch.wanted_bytes p)
    then record polled { settled_polls = 0 }
    else if ltb s.settled_polls complete_confirmations
    then record polled { settled_polls = s.settled_polls + 1 }
    else record polled { fetch = record (polled.fetch) { phase = complete } }
