-- ===== src/Announce/Budget.antt =====
-- src/downloader/announce/PeerAnnounceBudget: how many records one peer may send.
-- A `steady_clock` time point is its count of nanoseconds; `_nextBlock` counts seconds.
-- A difference of time points that would be negative is 0 here; each one is only compared with a
-- positive interval, which gives the same answer. The wrap of the 64-bit clock is not modelled.
pub mod Bounds
pub mod Ladder
pub mod Rate
use wgrd_mod_manager.Common.{
  ℕ, ◌+◌, ◌-◌, ◌*◌, ◌/◌, min, Bool, true, false, not, ltb, leb, ◌==◌, if◌then◌else◌,
}

abbrev pub burst_allowance : ℕ
burst_allowance = 8

-- nanoseconds in a second
abbrev pub second : ℕ
second = 1_000_000_000

abbrev pub refill_interval : ℕ
refill_interval = 60 * second

-- in seconds
abbrev pub first_block : ℕ
first_block = 60

abbrev pub block_multiplier : ℕ
block_multiplier = 5

-- in seconds
abbrev pub maximum_block : ℕ
maximum_block = 24 * 3600

abbrev pub sustained_overage_threshold : ℕ
sustained_overage_threshold = 8

abbrev pub clean_interval : ℕ
clean_interval = 3600 * second

pub record PeerAnnounceBudget : Type 0 where
  pub allowance : ℕ
  pub last_refill : ℕ
  pub blocked_until : ℕ
  pub next_block : ℕ
  pub consecutive_overage : ℕ
  pub last_seen : ℕ
  pub seeded : Bool

abbrev pub fresh : PeerAnnounceBudget
fresh = record {
  allowance = burst_allowance;
  last_refill = 0;
  blocked_until = 0;
  next_block = first_block;
  consecutive_overage = 0;
  last_seen = 0;
  seeded = false;
}

unfoldable pub refill : PeerAnnounceBudget → ℕ → PeerAnnounceBudget
refill b now =
    if not b.seeded
    then record b { last_refill = now; seeded = true }
    else if ltb (now - b.last_refill) refill_interval
    then b
    else record b {
      allowance =
          min burst_allowance
            (b.allowance + min ((now - b.last_refill) / refill_interval) burst_allowance);
      last_refill = now;
    }

unfoldable pub reset_ladder_when_clean : PeerAnnounceBudget → ℕ → PeerAnnounceBudget
reset_ladder_when_clean b now =
    if b.next_block == first_block
    then b
    else if leb clean_interval (now - b.blocked_until)
    then record b { next_block = first_block }
    else b

unfoldable pub is_blocked : PeerAnnounceBudget → ℕ → Bool
is_blocked b now = ltb now b.blocked_until

-- the body of `Penalise` behind the reset of the ladder
unfoldable pub block_for : PeerAnnounceBudget → ℕ → PeerAnnounceBudget
block_for b now = record b {
  blocked_until = now + b.next_block * second;
  next_block = min (b.next_block * block_multiplier) maximum_block;
  allowance = 0;
  consecutive_overage = 0;
}

unfoldable pub penalise : PeerAnnounceBudget → ℕ → PeerAnnounceBudget
unfolding reset_ladder_when_clean block_for
penalise b now = block_for (reset_ladder_when_clean (record b { last_seen = now }) now) now

-- the refusal of `Consume` at an empty allowance
unfoldable pub overrun : PeerAnnounceBudget → ℕ → PeerAnnounceBudget
unfolding penalise
overrun b now =
    let c = record b { consecutive_overage = b.consecutive_overage + 1 } in
    if leb sustained_overage_threshold c.consecutive_overage then penalise c now else c

-- `Consume` behind the test for a block, the reset and the refill
unfoldable pub spend : PeerAnnounceBudget → ℕ → Bool × PeerAnnounceBudget
unfolding overrun
spend b now =
    if b.allowance == 0
    then (false, overrun b now)
    else (true, record b { consecutive_overage = 0; allowance = b.allowance - 1 })

unfoldable pub consume : PeerAnnounceBudget → ℕ → Bool × PeerAnnounceBudget
unfolding is_blocked refill reset_ladder_when_clean spend
consume b now =
    let seen = record b { last_seen = now } in
    if is_blocked seen now
    then (false, seen)
    else spend (refill (reset_ladder_when_clean seen now) now) now

-- `_nextBlock != FIRST_BLOCK`
unfoldable pub is_escalated : PeerAnnounceBudget → Bool
is_escalated b = not (b.next_block == first_block)
