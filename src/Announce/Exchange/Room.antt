-- ===== src/Announce/Exchange/Room.antt =====
-- src/downloader/announce/AnnounceExchange, `EnsureBudget_`: the budget of a peer, and which other
-- budget is forgotten where there are too many.
use wgrd_mod_manager.Common.{
  ℕ, Bool, not, Option, none, some, [], ◌∷◌, ltb, leb, if◌then◌else◌, differ, length, Bytes,
}
use wgrd_mod_manager.Common.Table.{Table, find, insert, erase}
use wgrd_mod_manager.Announce.Budget.{PeerAnnounceBudget, fresh, is_blocked, is_escalated}

abbrev pub maximum_tracked_peers : ℕ
maximum_tracked_peers = 512

-- whether the loop of `EnsureBudget_` prefers a candidate to the victim that it has
unfoldable pub is_better_victim : PeerAnnounceBudget → PeerAnnounceBudget → Bool
is_better_victim candidate victim =
    let candidate_clean = not (is_escalated candidate) in
    let victim_clean = not (is_escalated victim) in
    if differ candidate_clean victim_clean
    then candidate_clean
    else ltb candidate.last_seen victim.last_seen

-- one pass of the loop
unfoldable pub consider :
    ℕ
    → Option (Bytes × PeerAnnounceBudget)
    → Bytes × PeerAnnounceBudget
    → Option (Bytes × PeerAnnounceBudget)
unfolding is_better_victim
consider now victim candidate = if is_blocked candidate.1 now then victim else elim victim [
  | none ↦ some candidate
  | some held ↦ if is_better_victim candidate.1 held.1 then some candidate else some held
]

unfoldable pub choose_victim :
    ℕ
    → Option (Bytes × PeerAnnounceBudget)
    → Table PeerAnnounceBudget
    → Option (Bytes × PeerAnnounceBudget)
choose_victim now victim [] = victim
choose_victim now victim (candidate ∷ rest) = choose_victim now (consider now victim candidate) rest

-- `EnsureBudget_`: the budget of the peer and the map that holds it, or `none` for `nullptr`
unfoldable pub ensure_budget :
    Table PeerAnnounceBudget → Bytes → ℕ → Option (PeerAnnounceBudget × Table PeerAnnounceBudget)
ensure_budget budgets peer now = elim (find peer budgets) [
  | some known ↦ some (known, budgets)
  | none ↦
      if leb maximum_tracked_peers (length budgets)
      then elim (choose_victim now none budgets) [
        | none ↦ none
        | some victim ↦ some (fresh, insert peer fresh (erase victim.0 budgets))
      ]
      else some (fresh, insert peer fresh budgets)
]
