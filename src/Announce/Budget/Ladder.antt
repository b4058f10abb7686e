-- ===== src/Announce/Budget/Ladder.antt =====
-- How long the successive blocks of one peer last.
use wgrd_mod_manager.Announce.Budget.{
  second, first_block, block_multiplier, maximum_block, PeerAnnounceBudget, penalise,
}
use wgrd_mod_manager.Common.{
  ℕ, suc, ◌+◌, ◌*◌, ◌^◌, min, ◌≡◌, subst, inl, inr, List, [], ◌∷◌, arith, leb, if◌then◌else◌,
  Bool-cases,
}
use native.Mathlib.Nat.{pow-suc}

-- The length in seconds of the block that follows `k` earlier ones.
abbrev pub ladder : ℕ → ℕ
ladder k = min (first_block * block_multiplier ^ k) maximum_block

ladder-suc : (k : ℕ) → ladder (suc k) ≡ min (ladder k * block_multiplier) maximum_block
ladder-suc k = omega (arith, pow-suc 5 k)

-- The step that a violation at `t` takes, where `k` steps came before and the last block ended at
-- `end`: after an hour without a block the ladder begins again.
abbrev pub step_at : ℕ → ℕ → ℕ → ℕ
step_at k end t = if leb (end + 3600 * second) t then 0 else k

-- The blocks that violations at these times lead to: the one of step `k` lasts `60 * 5 ^ k` seconds
-- from its violation on, or a day where that is less.
abbrev pub Climbs : PeerAnnounceBudget → ℕ → ℕ → List ℕ → Type 0
Climbs b k end [] = Unit
Climbs b k end (t ∷ ts) =
    ((penalise b t).blocked_until ≡ t + min (60 * 5 ^ step_at k end t) 86400 * second)
    × Climbs (penalise b t) (suc (step_at k end t))
        (t + min (60 * 5 ^ step_at k end t) 86400 * second) ts

penalise-ladder :
    (b : PeerAnnounceBudget) (k now : ℕ)
    → b.next_block ≡ ladder k
    → ((penalise b now).blocked_until ≡ now + ladder (step_at k b.blocked_until now) * second)
      × ((penalise b now).next_block ≡ ladder (suc (step_at k b.blocked_until now)))
unfolding penalise
penalise-ladder b k now e = elim (Bool-cases (leb (b.blocked_until + 3600 * second) now)) [
  | inl h ↦ rw h (ground (arith, e, h))
  | inr h ↦ rw h (ground (arith, ladder-suc k, e, h))
]

-- Whatever the times of a peer's violations, where the next block is that of step `k` before them,
-- each of them blocks the peer for its step of the ladder: `60 * 5 ^ k` seconds, five times as long
-- at each further violation, a day at most, and 60 seconds again, with the steps from 1 after that,
-- when the last block has been over for an hour.
pub penalise-Climbs :
    (b : PeerAnnounceBudget) (k : ℕ) (ts : List ℕ)
    → b.next_block ≡ min (60 * 5 ^ k) 86400
    → Climbs b k b.blocked_until ts
penalise-Climbs b k [] e = tt
penalise-Climbs b k (t ∷ ts) e =
    let (until, next) = penalise-ladder b k t e in
    (
      until,
      subst (λ end. Climbs (penalise b t) (suc (step_at k b.blocked_until t)) end ts) until
          (penalise-Climbs (penalise b t) (suc (step_at k b.blocked_until t)) ts next),
    )
