-- ===== src/Announce/Budget/Rate.antt =====
-- How many records a peer can get through.
use wgrd_mod_manager.Common.{
  ℕ, ◌+◌, ◌-◌, ◌/◌, ◌≤◌, ◌≡◌, Bool, true, List, [], ◌∷◌, arith, if◌then◌else◌,
}
use wgrd_mod_manager.Announce.Budget.{
  burst_allowance, refill_interval, PeerAnnounceBudget, fresh, consume,
}

-- The records that are let through when one arrives at each of these times.
pub accepted : PeerAnnounceBudget → List ℕ → ℕ
accepted b [] = 0
accepted b (t ∷ ts) = (if (consume b t).0 then 1 else 0) + accepted (consume b t).1 ts

-- The times do not go back.
abbrev pub Follows : ℕ → List ℕ → Type 0
Follows t [] = Unit
Follows t (u ∷ ts) = (t ≤ u) × Follows u ts

abbrev pub last_of : ℕ → List ℕ → ℕ
last_of t [] = t
last_of t (u ∷ ts) = last_of u ts

-- What one call spends and what it grants, up to any later time `l`.
record Pays (b : PeerAnnounceBudget) (t l : ℕ) (r : Bool × PeerAnnounceBudget) : Type 0 where
  seeded : r.1.seeded ≡ true
  refilled : r.1.last_refill ≤ t
  covered :
      (if r.0 then 1 else 0) + r.1.allowance + (l - r.1.last_refill) / refill_interval
      ≤ b.allowance + (l - b.last_refill) / refill_interval

consume-Pays :
    (b : PeerAnnounceBudget) (t l : ℕ)
    → b.seeded ≡ true
    → b.last_refill ≤ t
    → t ≤ l
    → Pays b t l (consume b t)
unfolding consume
consume-Pays b t l s h k = record {
  seeded = ground arith;
  refilled = ground arith;
  covered = ground arith;
}

le-last_of : (t : ℕ) (ts : List ℕ) → Follows t ts → t ≤ last_of t ts
le-last_of t [] f = omega arith
le-last_of t (u ∷ ts) f = omega (arith, le-last_of u ts f.1)

accepted-le :
    (b : PeerAnnounceBudget) (t : ℕ) (ts : List ℕ)
    → b.seeded ≡ true
    → b.last_refill ≤ t
    → Follows t ts
    → accepted b ts ≤ b.allowance + (last_of t ts - b.last_refill) / refill_interval
unfolding accepted
accepted-le b t [] s h f = omega arith
accepted-le b t (u ∷ ts) s h f =
    let p = consume-Pays b u (last_of u ts) s (omega arith) (le-last_of u ts f.1) in
    omega (arith, p.covered, accepted-le (consume b u).1 u ts p.seeded p.refilled f.1)

record Starts (t : ℕ) (r : Bool × PeerAnnounceBudget) : Type 0 where
  passed : r.0 ≡ true
  seeded : r.1.seeded ≡ true
  refilled : r.1.last_refill ≡ t
  left : r.1.allowance ≡ 7

consume-Starts : (t : ℕ) → Starts t (consume fresh t)
unfolding consume
consume-Starts t = ground arith

-- A budget that is new at the first of these records, and that is kept for all of them, lets at most
-- eight of them through, and one more for each full minute since the first, at whatever times they
-- arrive, as long as these do not go back.
pub accepted_rate :
    (t : ℕ) (ts : List ℕ)
    → Follows t ts
    → accepted fresh (t ∷ ts) ≤ burst_allowance + (last_of t ts - t) / refill_interval
unfolding accepted
accepted_rate t ts f =
    let p = consume-Starts t in
    let later = accepted-le (consume fresh t).1 t ts p.seeded (omega (arith, p.refilled)) f in
    rw p.passed (omega (arith, p.left, rw p.refilled at later))
