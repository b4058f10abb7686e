-- ===== src/Announce/Wants/Laws.antt =====
-- A want is redeemed once, only if it is outstanding, and the tracker stays bounded.
use wgrd_mod_manager.Common.{
  ℕ, ◌-◌, ◌≤◌, ◌≡◌, refl, Bool, true, false, ◌||◌, none, some, List, [], ◌∷◌, arith, ltb, leb,
  if◌then◌else◌, length, Bytes, same, same_iff,
}
use wgrd_mod_manager.Common.Table.{Table, find, erase_if, Ascends}
use wgrd_mod_manager.Common.Table.Laws.{
  find-insert_self, insert-Ascends, erase-Ascends, erase_if-Ascends, find-Above, length-insert-le,
  length-insert_present, length-erase-le, length-erase_if-le, find-erase,
}
use wgrd_mod_manager.Announce.Wants.{
  maximum_outstanding, want_expiry, OutstandingWantTracker, track, redeem, prune,
}

pub data Call : Type 0 where
  tracks : Bytes → ℕ → Call
  redeems : Bytes → Call
  prunes : ℕ → Call

abbrev pub step : OutstandingWantTracker → Call → OutstandingWantTracker
step w (tracks k now) = (track w k now).1
step w (redeems k) = (redeem w k).1
step w (prunes now) = prune w now

abbrev pub run : OutstandingWantTracker → List Call → OutstandingWantTracker
run w [] = w
run w (c ∷ cs) = run (step w c) cs

pub record IsBounded (w : OutstandingWantTracker) : Type 0 where
  pub ascends : Ascends w.pending
  pub size_max : length w.pending ≤ maximum_outstanding

pub track-IsBounded :
    (w : OutstandingWantTracker) (k : Bytes) (now : ℕ) → IsBounded w → IsBounded (track w k now).1
unfolding track
track-IsBounded w k now v = ground (
  arith,
  insert-Ascends k now w.pending v.ascends,
  length-insert-le k now w.pending,
  length-insert_present k now w.pending v.ascends,
)

pub redeem-IsBounded :
    (w : OutstandingWantTracker) (k : Bytes) → IsBounded w → IsBounded (redeem w k).1
unfolding redeem
redeem-IsBounded w k v =
    ground (arith, erase-Ascends k w.pending v.ascends, length-erase-le k w.pending)

pub prune-IsBounded : (w : OutstandingWantTracker) (now : ℕ) → IsBounded w → IsBounded (prune w now)
unfolding prune
prune-IsBounded w now v = record {
  ascends = erase_if-Ascends _ w.pending v.ascends;
  size_max = omega (arith, length-erase_if-le (λ asked. leb want_expiry (now - asked)) w.pending);
}

step-IsBounded : (w : OutstandingWantTracker) (c : Call) → IsBounded w → IsBounded (step w c)
step-IsBounded w (tracks k now) v = track-IsBounded w k now v
step-IsBounded w (redeems k) v = redeem-IsBounded w k v
step-IsBounded w (prunes now) v = prune-IsBounded w now v

-- After any history of calls on a tracker in bounds, such as a new one, at most 128 identifiers are
-- outstanding, none twice.
run-IsBounded : (w : OutstandingWantTracker) (cs : List Call) → IsBounded w → IsBounded (run w cs)
run-IsBounded w [] v = v
run-IsBounded w (c ∷ cs) v = run-IsBounded (step w c) cs (step-IsBounded w c v)

abbrev pub is_pending : OutstandingWantTracker → Bytes → Bool
is_pending w k = elim (find k w.pending) [ some _ ↦ true | none ↦ false ]

-- `Redeem` of a tracker in bounds answers whether the identifier was outstanding; afterwards it is
-- not, and a second `Redeem` fails; every other identifier is as before.
pub redeem_once :
    (w : OutstandingWantTracker) (k j : Bytes)
    → IsBounded w
    → ((redeem w k).0 ≡ is_pending w k)
      × ((redeem (redeem w k).1 k).0 ≡ false)
      × (is_pending (redeem w k).1 j ≡ (if same j k then false else is_pending w j))
unfolding redeem
redeem_once w k j v = ground (
  arith,
  find-erase k k w.pending v.ascends,
  find-erase k j w.pending v.ascends,
  same_iff k k,
  same_iff j k,
)

-- `Track` answers false exactly when the identifier is new and 128 others are outstanding; then
-- nothing changes, and otherwise the identifier is outstanding with the new time.
pub track_lem :
    (w : OutstandingWantTracker) (k : Bytes) (now : ℕ)
    → ((track w k now).0 ≡ (is_pending w k || ltb (length w.pending) maximum_outstanding))
      × (find k (track w k now).1.pending ≡ (if (track w k now).0 then some now else none))
      × ((track w k now).0 ≡ false → (track w k now).1 ≡ w)
unfolding track
track_lem w k now = ground (arith, find-insert_self k now w.pending)

find-erase_if :
    (k : Bytes) (p : ℕ → Bool) (m : Table ℕ)
    → Ascends m
    → find k (erase_if p m)
      ≡ elim (find k m) [ none ↦ none | some v ↦ if p v then none else some v ]
unfolding find erase_if
find-erase_if k p [] a = refl
find-erase_if k p ((j, v) ∷ m) a =
    ground (arith, same_iff k j, find-erase_if k p m a.1, find-Above k m)

-- `Prune` of a tracker in bounds forgets exactly the identifiers asked for at least five minutes
-- ago.
find-prune :
    (w : OutstandingWantTracker) (k : Bytes) (now : ℕ)
    → IsBounded w
    → find k (prune w now).pending ≡ elim (find k w.pending) [
      | none ↦ none
      | some asked ↦ if ltb (now - asked) want_expiry then some asked else none
    ]
unfolding prune
find-prune w k now v =
    ground (arith, find-erase_if k (λ asked. leb want_expiry (now - asked)) w.pending v.ascends)
