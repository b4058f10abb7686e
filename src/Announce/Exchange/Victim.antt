-- ===== src/Announce/Exchange/Victim.antt =====
-- Whose budget is forgotten when a new peer comes and 512 are known.
use wgrd_mod_manager.Common.{
  ℕ, ◌≡◌, refl, sym, ◌⊎◌, inl, inr, true, false, none, some, [], ◌∷◌, arith, Bool-cases, All, Any,
  Bytes,
}
use wgrd_mod_manager.Common.Table.{Table}
use wgrd_mod_manager.Announce.Budget.{PeerAnnounceBudget, is_blocked, is_escalated}
use wgrd_mod_manager.Announce.Exchange.{is_better_victim, consider, choose_victim}

abbrev Peer : Type 0
Peer = Bytes × PeerAnnounceBudget

-- blocked, or no better a victim than `v`
abbrev pub Yields : ℕ → Bytes × PeerAnnounceBudget → Bytes × PeerAnnounceBudget → Type 0
Yields now v e = (is_blocked e.1 now ≡ true) ⊎ (is_better_victim e.1 v.1 ≡ false)

is_better_victim_irrefl : (b : PeerAnnounceBudget) → is_better_victim b b ≡ false
unfolding is_better_victim is_escalated
is_better_victim_irrefl b = ground arith

is_better_victim_trans :
    (x w v : PeerAnnounceBudget)
    → is_better_victim x w ≡ false
    → is_better_victim v w ≡ true
    → is_better_victim x v ≡ false
unfolding is_better_victim is_escalated
is_better_victim_trans x w v h k = ground arith

-- The loop from a victim `w` on: what it ends with.
record Wins (now : ℕ) (w v : Peer) (m : Table PeerAnnounceBudget) : Type 0 where
  beats : All (Yields now v) m
  improves :
      (x : PeerAnnounceBudget) → is_better_victim x w.1 ≡ false → is_better_victim x v.1 ≡ false
  is_open : is_blocked v.1 now ≡ false
  is_member : (v ≡ w) ⊎ Any (λ e. e ≡ v) m

choose_victim-Wins :
    (now : ℕ) (w : Peer) (m : Table PeerAnnounceBudget)
    → is_blocked w.1 now ≡ false
    → (v : Peer) × (choose_victim now (some w) m ≡ some v) × Wins now w v m
unfolding choose_victim consider
choose_victim-Wins now w [] o =
    (w, refl, record { beats = tt; improves = λ x h. h; is_open = o; is_member = inl refl })
choose_victim-Wins now w (e ∷ m) o = elim (Bool-cases (is_blocked e.1 now)) [
  | inl blocked ↦
      let (v, c, h) = choose_victim-Wins now w m o in
      (
        v,
        rw (blocked, consider) c,
        record {
          beats = (inl blocked, h.beats);
          improves = h.improves;
          is_open = h.is_open;
          is_member = elim h.is_member [ inl p ↦ inl p | inr p ↦ inr (inr p) ];
        },
      )
  | inr free ↦ elim (Bool-cases (is_better_victim e.1 w.1)) [
    | inl better ↦
        let (v, c, h) = choose_victim-Wins now e m free in
        (
          v,
          rw (free, consider) (rw better c),
          record {
            beats = (inr (h.improves e.1 (is_better_victim_irrefl e.1)), h.beats);
            improves = λ x n. h.improves x (is_better_victim_trans x w.1 e.1 n better);
            is_open = h.is_open;
            is_member = elim h.is_member [ inl p ↦ inr (inl (sym p)) | inr p ↦ inr (inr p) ];
          },
        )
    | inr worse ↦
        let (v, c, h) = choose_victim-Wins now w m o in
        (
          v,
          rw (free, consider) (rw worse c),
          record {
            beats = (inr (h.improves e.1 worse), h.beats);
            improves = h.improves;
            is_open = h.is_open;
            is_member = elim h.is_member [ inl p ↦ inl p | inr p ↦ inr (inr p) ];
          },
        )
  ]
]

-- The loop over all budgets: the victim is one of them, not blocked, and each of the others is
-- blocked or no better a victim; there is none exactly when all are blocked.
pub record Chosen (now : ℕ) (v : Bytes × PeerAnnounceBudget) (m : Table PeerAnnounceBudget)
    : Type 0 where
  pub least : All (Yields now v) m
  pub is_open : is_blocked v.1 now ≡ false
  pub is_member : Any (λ e. e ≡ v) m

-- When room has to be made, the budget that is forgotten is that of a tracked peer which is not
-- blocked, one that was never escalated if there is such a one, and among those of its kind the
-- one not seen for longest; no budget is forgotten exactly when every tracked peer is blocked.
pub choose_victim-Chosen :
    (now : ℕ) (m : Table PeerAnnounceBudget)
    → ((choose_victim now none m ≡ none) × All (λ e. is_blocked e.1 now ≡ true) m)
      ⊎ ((v : Bytes × PeerAnnounceBudget) × (choose_victim now none m ≡ some v) × Chosen now v m)
unfolding choose_victim consider
choose_victim-Chosen now [] = inl (refl, tt)
choose_victim-Chosen now (e ∷ m) = elim (Bool-cases (is_blocked e.1 now)) [
  | inl blocked ↦ elim (choose_victim-Chosen now m) [
    | inl (c, all_blocked) ↦ inl (rw (blocked, consider) c, (blocked, all_blocked))
    | inr (v, c, h) ↦ inr (
      v,
      rw (blocked, consider) c,
      record { least = (inl blocked, h.least); is_open = h.is_open; is_member = inr h.is_member },
    )
  ]
  | inr free ↦
      let (v, c, h) = choose_victim-Wins now e m free in
      inr (
        v,
        rw (free, consider) c,
        record {
          least = (inr (h.improves e.1 (is_better_victim_irrefl e.1)), h.beats);
          is_open = h.is_open;
          is_member = elim h.is_member [ inl p ↦ inl (sym p) | inr p ↦ inr p ];
        },
      )
]
