-- ===== src/Announce/Budget/Bounds.antt =====
-- The fields of a budget stay in range, and what `Consume` answers.
use wgrd_mod_manager.Common.{ℕ, ◌≤◌, ◌<◌, arith}
use wgrd_mod_manager.Announce.Budget.{
  PeerAnnounceBudget, burst_allowance, first_block, maximum_block, sustained_overage_threshold,
  refill, reset_ladder_when_clean, penalise, consume, spend,
}

pub record IsValid (b : PeerAnnounceBudget) : Type 0 where
  pub allowance_max : b.allowance ≤ burst_allowance
  pub block_min : first_block ≤ b.next_block
  pub block_max : b.next_block ≤ maximum_block
  pub overage_max : b.consecutive_overage < sustained_overage_threshold

-- A budget in range stays in range under `Penalise`.
pub penalise-IsValid : (b : PeerAnnounceBudget) (now : ℕ) → IsValid b → IsValid (penalise b now)
unfolding penalise
penalise-IsValid b now v = ground arith

refill-IsValid : (b : PeerAnnounceBudget) (now : ℕ) → IsValid b → IsValid (refill b now)
unfolding refill
refill-IsValid b now v = ground arith

reset-IsValid :
    (b : PeerAnnounceBudget) (now : ℕ) → IsValid b → IsValid (reset_ladder_when_clean b now)
unfolding reset_ladder_when_clean
reset-IsValid b now v = ground arith

spend-IsValid : (b : PeerAnnounceBudget) (now : ℕ) → IsValid b → IsValid (spend b now).1
unfolding spend
spend-IsValid b now v = ground arith

pub consume-IsValid : (b : PeerAnnounceBudget) (now : ℕ) → IsValid b → IsValid (consume b now).1
unfolding consume
consume-IsValid b now v = ground (
  arith,
  reset-IsValid (record b { last_seen = now }) now,
  refill-IsValid (reset_ladder_when_clean (record b { last_seen = now }) now) now,
  spend-IsValid (refill (reset_ladder_when_clean (record b { last_seen = now }) now) now) now,
)
