-- ===== src/Announce/Exchange/Budgets.antt =====
-- The budgets stay bounded and in range, and a block lasts.
use wgrd_mod_manager.Common.{
  ℕ, ◌≤◌, ◌<◌, ◌≡◌, sym, ap, ◌∙◌, ◌≢◌, ◌⊎◌, inl, inr, true, false, none, some, arith, leb,
  Bool-cases, Option-cases, length, All, Bytes, same, same_iff,
}
use wgrd_mod_manager.Common.Table.{Table, find, insert, erase, Ascends}
use wgrd_mod_manager.Common.Table.Laws.{
  find-insert, find-insert_self, insert-Ascends, erase-Ascends, length-insert-le,
  length-insert_present, length-erase, find-erase, All-find, All-insert, All-erase, find_entry,
}
use wgrd_mod_manager.Announce.Budget.{PeerAnnounceBudget, fresh, is_blocked, consume}
use wgrd_mod_manager.Announce.Budget.Bounds.{IsValid, consume-IsValid}
use wgrd_mod_manager.Announce.Exchange.{
  IAnnounces, maximum_tracked_peers, AnnounceExchange, ensure_budget, receive, ingest,
}
use wgrd_mod_manager.Announce.Exchange.Victim.{Chosen, choose_victim-Chosen}

abbrev ValidEntry : Bytes × PeerAnnounceBudget → Type 0
ValidEntry e = IsValid e.1

-- at most 512 peers, none twice, and each budget in range
pub record AreBudgets (m : Table PeerAnnounceBudget) : Type 0 where
  pub ascends : Ascends m
  pub size_max : length m ≤ maximum_tracked_peers
  pub valid : All (λ e. IsValid e.1) m

-- The peer has its budget, and the others keep theirs if they are blocked.
pub record Ensured (m : Table PeerAnnounceBudget) (peer : Bytes) (now : ℕ)
    (r : PeerAnnounceBudget × Table PeerAnnounceBudget) : Type 0 where
  pub held : find peer r.1 ≡ some r.0
  pub sound : AreBudgets r.1
  pub in_range : IsValid r.0
  pub blocked_kept :
      (k : Bytes) (b : PeerAnnounceBudget)
      → find k m ≡ some b
      → is_blocked b now ≡ true
      → find k r.1 ≡ some b

fresh-IsValid : IsValid fresh
fresh-IsValid = omega arith

-- Room is made in `rest`, and the new peer gets a fresh budget.
fresh-Ensured :
    (m rest : Table PeerAnnounceBudget) (peer : Bytes) (now : ℕ)
    → find peer m ≡ none
    → Ascends rest
    → length rest < maximum_tracked_peers
    → All ValidEntry rest
    → ((k : Bytes) (b : PeerAnnounceBudget)
        → find k m ≡ some b
        → is_blocked b now ≡ true
        → find k rest ≡ some b)
    → Ensured m peer now (fresh, insert peer fresh rest)
fresh-Ensured m rest peer now absent ascends size valid kept = record {
  held = find-insert_self peer fresh rest;
  sound = record {
    ascends = insert-Ascends peer fresh rest ascends;
    size_max = omega (arith, length-insert-le peer fresh rest);
    valid = All-insert ValidEntry peer fresh rest fresh-IsValid valid;
  };
  in_range = fresh-IsValid;
  blocked_kept = λ k b e o. other k b e (kept k b e o);
}
  where
    other :
        (k : Bytes) (b : PeerAnnounceBudget)
        → find k m ≡ some b
        → find k rest ≡ some b
        → find k (insert peer fresh rest) ≡ some b
    other k b e f = elim (Bool-cases (same k peer)) [
      | inl hit ↦ absurd (clash (sym (ap (λ j. find j m) ((same_iff k peer).0 hit)) ∙ e))
      | inr miss ↦ find-insert peer k fresh rest ∙ rw miss f
    ]
      where
        clash : find peer m ≡ some b → ⊥
        clash h = cc

erase_victim :
    (m : Table PeerAnnounceBudget) (now : ℕ) (w : Bytes × PeerAnnounceBudget)
    → AreBudgets m
    → Chosen now w m
    → (k : Bytes) (b : PeerAnnounceBudget) → find k m ≡ some b
    → is_blocked b now ≡ true
    → find k (erase w.0 m) ≡ some b
erase_victim m now w v c k b e o = find-erase w.0 k m v.ascends ∙ elim (Bool-cases (same k w.0)) [
  | inl hit ↦ absurd (clash (at_victim hit))
  | inr miss ↦ rw miss e
]
  where
    at_victim : same k w.0 ≡ true → some w.1 ≡ some b
    at_victim hit =
        sym (find_entry w m v.ascends c.is_member)
        ∙ sym (ap (λ j. find j m) ((same_iff k w.0).0 hit))
        ∙ e

    clash : some w.1 ≡ some b → ⊥
    clash h = cc (c.is_open, o, h)

pub ensure_budget-Ensured :
    (m : Table PeerAnnounceBudget) (peer : Bytes) (now : ℕ)
    → AreBudgets m
    → (ensure_budget m peer now ≡ none)
      ⊎ ((r : PeerAnnounceBudget × Table PeerAnnounceBudget) × (ensure_budget m peer now ≡ some r)
          × Ensured m peer now r)
unfolding ensure_budget
ensure_budget-Ensured m peer now v = elim (Option-cases (find peer m)) [
  | inr (b, h) ↦ inr (
    (b, m),
    rw (h, ensure_budget),
    record {
      held = h;
      sound = v;
      in_range = All-find ValidEntry peer m v.valid h;
      blocked_kept = λ k c e o. e;
    },
  )
  | inl h ↦ elim (Bool-cases (leb maximum_tracked_peers (length m))) [
    | inr room ↦ inr (
      (fresh, insert peer fresh m),
      rw (h, ensure_budget) (rw room),
      fresh-Ensured m m peer now h v.ascends (below room) v.valid (λ k b e o. e),
    )
    | inl full ↦ elim (choose_victim-Chosen now m) [
      | inl (c, _) ↦ inl (rw (h, ensure_budget) (rw full (rw c)))
      | inr (w, c, p) ↦ inr (
        (fresh, insert peer fresh (erase w.0 m)),
        rw (h, ensure_budget) (rw full (rw c)),
        fresh-Ensured m (erase w.0 m) peer now h (erase-Ascends w.0 m v.ascends) (smaller w p)
            (All-erase ValidEntry w.0 m v.valid) (erase_victim m now w v p),
      )
    ]
  ]
]
  where
    below : leb maximum_tracked_peers (length m) ≡ false → length m < maximum_tracked_peers
    below h = ground arith

    smaller :
        (w : Bytes × PeerAnnounceBudget)
        → Chosen now w m
        → length (erase w.0 m) < maximum_tracked_peers
    smaller w p = omega (
      arith,
      v.size_max,
      length-erase w.0 m (λ e. present w (sym (find_entry w m v.ascends p.is_member) ∙ e)),
    )
      where
        present : (w : Bytes × PeerAnnounceBudget) → some w.1 ≢ none
        present w h = cc

-- A new value of a budget that is tracked.
pub charge-AreBudgets :
    (m : Table PeerAnnounceBudget) (peer : Bytes) (b c : PeerAnnounceBudget)
    → AreBudgets m
    → find peer m ≡ some b
    → IsValid c
    → AreBudgets (insert peer c m)
charge-AreBudgets m peer b c v h i = record {
  ascends = insert-Ascends peer c m v.ascends;
  size_max = omega (arith, v.size_max, length-insert_present peer c m v.ascends present);
  valid = All-insert ValidEntry peer c m i v.valid;
}
  where
    present : find peer m ≢ none
    present e = cc

module _ {S : Type 0} (i : IAnnounces S) where
  receive_budgets :
      (x : AnnounceExchange S) (record_ : Bytes) → (receive i x record_).1.budgets ≡ x.budgets
  unfolding receive
  receive_budgets x record_ = elim (Bool-cases (i.take_record x.announces record_).0) [
    | inl e ↦ rw (e, receive)
    | inr e ↦ rw (e, receive)
  ]

  -- The budgets behind `Ingest`: as they were, or with one charged.
  pub ingest_budgets :
      (x : AnnounceExchange S) (peer record_ : Bytes) (now : ℕ)
      → AreBudgets x.budgets
      → ((ensure_budget x.budgets peer now ≡ none)
          × ((ingest i x peer record_ now).1.budgets ≡ x.budgets))
        ⊎ ((r : PeerAnnounceBudget × Table PeerAnnounceBudget) × (ensure_budget x.budgets peer now
              ≡ some r)
            × Ensured x.budgets peer now r
            × ((ingest i x peer record_ now).1.budgets ≡ insert peer (consume r.0 now).1 r.1))
  unfolding ingest
  ingest_budgets x peer record_ now v = elim (ensure_budget-Ensured x.budgets peer now v) [
    | inl e ↦ inl (e, rw (e, ingest))
    | inr (r, e, h) ↦ inr (
      r,
      e,
      h,
      rw (e, ingest)
          (elim (Bool-cases (consume r.0 now).0) [
            | inl ok_ ↦ rw ok_ (receive_budgets _ record_)
            | inr over ↦ rw over
          ]),
    )
  ]

  -- `Ingest` keeps at most 512 budgets, none twice, each with its fields in range.
  pub ingest-AreBudgets :
      (x : AnnounceExchange S) (peer record_ : Bytes) (now : ℕ)
      → AreBudgets x.budgets
      → AreBudgets (ingest i x peer record_ now).1.budgets
  ingest-AreBudgets x peer record_ now v = elim (ingest_budgets x peer record_ now v) [
    | inl (_, e) ↦ rw e v
    | inr (r, _, h, e) ↦
        rw e (charge-AreBudgets r.1 peer r.0 _ h.sound h.held (consume-IsValid r.0 now h.in_range))
  ]
