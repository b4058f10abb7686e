-- ===== src/Transfer/FetchState/Removal.antt =====
-- The removal of torrents and the clearing of the store behind it.
use wgrd_mod_manager.Common.{
  ℕ, ◌≤◌, ◌≡◌, ◌↔◌, Bool, true, false, Option, none, some, List, [], ◌∷◌, arith, length,
  length-append, Bytes,
}
use wgrd_mod_manager.Transfer.FetchState.{
  complete_confirmations, FetchState, reserve, adopt, release, to_retire, removing_after, retire,
  remove_handle, confirm_removal, abandon_pending_clear, mark_prioritised, count_hash_failure,
  count_banned_peer, fail, Poll, update,
}

-- The clearing is held back only while a removal is under way, and a fetch is never counted as
-- settled more often than it has to be.
pub record IsConsistent (s : FetchState) : Type 0 where
  pub awaits_removal : s.clear_pending ≡ true → 1 ≤ length s.removing
  pub polls_max : s.settled_polls ≤ complete_confirmations

pub data Call : Type 0 where
  reserves : Bytes → Bytes → List Bytes → Call
  adopts : ℕ → Call
  releases abandons : Call
  retires : (ℕ → Bool) → Call
  confirms : ℕ → Call
  marks : ℕ → Call
  hash_fails peer_banned fails : Bytes → Call
  updates : Poll → Call

pub step : FetchState → Call → FetchState
step s (reserves identifier folder files) = (reserve s identifier folder files).1
step s (adopts handle) = adopt s handle
step s releases = release s
step s abandons = (abandon_pending_clear s).1
step s (retires is_valid) = (retire is_valid s).1
step s (confirms handle) = (confirm_removal s handle).1
step s (marks bytes) = mark_prioritised s bytes
step s (hash_fails failure) = count_hash_failure s failure
step s (peer_banned failure) = count_banned_peer s failure
step s (fails failure) = fail s failure
step s (updates poll) = update s poll

pub run : FetchState → List Call → FetchState
run s [] = s
run s (c ∷ cs) = run (step s c) cs

length-removing_after :
    (handle : Option ℕ) (removing : List ℕ)
    → length removing ≤ length (removing_after handle removing)
unfolding removing_after
length-removing_after none removing = omega arith
length-removing_after (some handle) removing = omega (arith, length-append removing (handle ∷ []))

step-IsConsistent : (s : FetchState) (c : Call) → IsConsistent s → IsConsistent (step s c)
unfolding step reserve adopt release abandon_pending_clear retire confirm_removal mark_prioritised
    count_hash_failure count_banned_peer fail update
step-IsConsistent s (reserves identifier folder files) v = ground arith
step-IsConsistent s (adopts handle) v = ground arith
step-IsConsistent s releases v = ground arith
step-IsConsistent s abandons v = ground arith
step-IsConsistent s (retires is_valid) v =
    ground (arith, length-removing_after (to_retire is_valid s) s.removing)
step-IsConsistent s (confirms handle) v = ground arith
step-IsConsistent s (marks bytes) v = ground arith
step-IsConsistent s (hash_fails failure) v = ground arith
step-IsConsistent s (peer_banned failure) v = ground arith
step-IsConsistent s (fails failure) v = ground arith
step-IsConsistent s (updates poll) v = ground arith

-- After any calls on a consistent state: a clearing is pending only while some torrent is still
-- being removed, and at most three settled polls are counted.
pub run-IsConsistent : (s : FetchState) (cs : List Call) → IsConsistent s → IsConsistent (run s cs)
unfolding run
run-IsConsistent s [] v = v
run-IsConsistent s (c ∷ cs) v = run-IsConsistent (step s c) cs (step-IsConsistent s c v)

remove_handle_last :
    (handle : ℕ) (hs : List ℕ) → (remove_handle handle hs ≡ some []) ↔ (hs ≡ handle ∷ [])
unfolding remove_handle
remove_handle_last handle [] = ground arith
remove_handle_last handle (h ∷ []) = ground arith
remove_handle_last handle (h ∷ k ∷ hs) = ground (arith)

-- `ConfirmRemoval` tells its caller to clear exactly when the handle is the last one that is being
-- removed and a clearing is pending; then nothing is being removed or pending any more.
confirm_removal_lem :
    (s : FetchState) (handle : ℕ)
    → (((confirm_removal s handle).0 ≡ true)
        ↔ ((s.removing ≡ handle ∷ []) × (s.clear_pending ≡ true)))
      × ((confirm_removal s handle).0 ≡ true
          → ((confirm_removal s handle).1.removing ≡ [])
            × ((confirm_removal s handle).1.clear_pending ≡ false))
unfolding confirm_removal
confirm_removal_lem s handle = ground (arith, remove_handle_last handle s.removing)
