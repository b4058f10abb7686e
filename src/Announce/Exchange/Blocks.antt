-- ===== src/Announce/Exchange/Blocks.antt =====
-- While a block lasts, the peer reaches nothing behind its budget, and cannot shed the block.

use wgrd_mod_manager.Common.{
  ℕ, ◌≤◌, ◌≡◌, sym, ap, ◌∙◌, inl, inr, Bool, true, false, none, some, arith, Bool-cases,
  Option-cases, some-injective, Bytes, same, same_iff,
}
use wgrd_mod_manager.Common.Table.{Table, find}
use wgrd_mod_manager.Common.Table.Laws.{find-insert}
use wgrd_mod_manager.Announce.Budget.{PeerAnnounceBudget, is_blocked, penalise, consume}
use wgrd_mod_manager.Announce.Exchange.{
  IAnnounces, bump_64, AnnounceExchange, ensure_budget, peer_blocked, penalise_peer, ingest,
}
use wgrd_mod_manager.Announce.Exchange.Budgets.{AreBudgets, ensure_budget-Ensured, ingest_budgets}

consume_blocked :
    (b : PeerAnnounceBudget) (now : ℕ)
    → is_blocked b now ≡ true
    → consume b now ≡ (false, record b { last_seen = now })
unfolding consume
consume_blocked b now h = ground arith

is_blocked_earlier :
    (b : PeerAnnounceBudget) (now t : ℕ) → now ≤ t → is_blocked b t ≡ true → is_blocked b now ≡ true
unfolding is_blocked
is_blocked_earlier b now t h k = ground arith

is_blocked_seen :
    (b : PeerAnnounceBudget) (now t : ℕ)
    → is_blocked b t ≡ true
    → is_blocked (record b { last_seen = now }) t ≡ true
unfolding is_blocked
is_blocked_seen b now t k = k

-- The budget of a peer that is blocked.
found_blocked :
    (m : Table PeerAnnounceBudget) (k : Bytes) (t : ℕ)
    → elim (find k m) [ none ↦ false | some known ↦ is_blocked known t ] ≡ true
    → (b : PeerAnnounceBudget) × (find k m ≡ some b) × (is_blocked b t ≡ true)
found_blocked m k t h = elim (Option-cases (find k m)) [
  | inl e ↦ absurd (ground arith)
  | inr (b, e) ↦ (b, e, ground arith)
]

module _ {S : Type 0} where
  peer_blocked-found :
      (x : AnnounceExchange S) (k : Bytes) (t : ℕ)
      → peer_blocked x k t ≡ true
      → (b : PeerAnnounceBudget) × (find k x.budgets ≡ some b) × (is_blocked b t ≡ true)
  unfolding peer_blocked
  peer_blocked-found x k t h = found_blocked x.budgets k t h

  found-peer_blocked :
      (x : AnnounceExchange S) (k : Bytes) (t : ℕ) (b : PeerAnnounceBudget)
      → find k x.budgets ≡ some b
      → is_blocked b t ≡ true
      → peer_blocked x k t ≡ true
  unfolding peer_blocked
  found-peer_blocked x k t b e h = rw (e, peer_blocked) h

  -- With budgets in order: a violation by one peer now leaves another, which is blocked at a time
  -- from now on, blocked at that time.
  penalise_peer-blocked :
      (x : AnnounceExchange S) (peer k : Bytes) (now t : ℕ)
      → AreBudgets x.budgets
      → now ≤ t
      → same k peer ≡ false
      → peer_blocked x k t ≡ true
      → peer_blocked (penalise_peer x peer now) k t ≡ true
  unfolding penalise_peer
  penalise_peer-blocked x peer k now t v h d o =
      let (b, f, ob) = peer_blocked-found x k t o in
      let on = is_blocked_earlier b now t h ob in
      elim (ensure_budget-Ensured x.budgets peer now v) [
        | inl e ↦ rw (e, penalise_peer) (found-peer_blocked _ k t b f ob)
        | inr (r, e, g) ↦
            let kept = find-insert peer k (penalise r.0 now) r.1 ∙ rw d (g.blocked_kept k b f on) in
            rw (e, penalise_peer) (found-peer_blocked _ k t b kept ob)
      ]

module _ {S : Type 0} (i : IAnnounces S) where
  -- With budgets in order, whoever sends a record now and however many peers there are: a peer that
  -- is blocked at a time from now on is still blocked at that time afterwards.
  pub ingest-blocked :
      (x : AnnounceExchange S) (peer record_ k : Bytes) (now t : ℕ)
      → AreBudgets x.budgets
      → now ≤ t
      → peer_blocked x k t ≡ true
      → peer_blocked (ingest i x peer record_ now).1 k t ≡ true
  ingest-blocked x peer record_ k now t v h o =
      let (b, f, ob) = peer_blocked-found x k t o in
      let on = is_blocked_earlier b now t h ob in
      elim (ingest_budgets i x peer record_ now v) [
        | inl (_, e) ↦ found-peer_blocked _ k t b (ap (find k) e ∙ f) ob
        | inr (r, _, g, e) ↦
            let kept = g.blocked_kept k b f on in
            let after = ap (find k) e ∙ find-insert peer k (consume r.0 now).1 r.1 in
            elim (Bool-cases (same k peer)) [
              | inr d ↦ found-peer_blocked _ k t b (after ∙ rw d kept) ob
              | inl hit ↦
                  let one : r.0 ≡ b =
                    some-injective
                      (sym g.held ∙ sym (ap (λ j. find j r.1) ((same_iff k peer).0 hit)) ∙ kept) in
                  let spent =
                    ap (λ c. (consume c now).1) one
                    ∙ ap (λ (p : Bool × PeerAnnounceBudget). p.1) (consume_blocked b now on) in
                  found-peer_blocked _ k t (record b { last_seen = now })
                    (after ∙ rw hit (ap some spent)) (is_blocked_seen b now t ob)
            ]
      ]

  -- A record of a blocked peer is refused before the receiver sees it, and counted as throttled.
  pub ingest_refused :
      (x : AnnounceExchange S) (peer record_ : Bytes) (now : ℕ)
      → peer_blocked x peer now ≡ true
      → ((ingest i x peer record_ now).0 ≡ false)
        × ((ingest i x peer record_ now).1.announces ≡ x.announces)
        × ((ingest i x peer record_ now).1.status.peers_throttled
            ≡ bump_64 (x.status.peers_throttled))
  unfolding ingest ensure_budget
  ingest_refused x peer record_ now o =
      let (b, f, ob) = peer_blocked-found x peer now o in
      let c = consume_blocked b now ob in ground (arith, f, c)
