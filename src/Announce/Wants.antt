-- ===== src/Announce/Wants.antt =====
-- src/downloader/announce/OutstandingWantTracker: the announces asked of one peer and not yet
-- received. Time points are nanoseconds, as in Budget.
pub mod Laws
use wgrd_mod_manager.Common.{
  ℕ, ◌-◌, ◌*◌, Bool, true, false, not, none, some, [], leb, if◌then◌else◌, length, Bytes,
}
use wgrd_mod_manager.Common.Table.{Table, find, insert, erase, erase_if}
use wgrd_mod_manager.Announce.Budget.{second}

abbrev pub maximum_outstanding : ℕ
maximum_outstanding = 128

abbrev pub want_expiry : ℕ
want_expiry = 300 * second

-- `_pending`: when each identifier was asked for
pub record OutstandingWantTracker : Type 0 where
  pub pending : Table ℕ

abbrev pub no_wants : OutstandingWantTracker
no_wants = record { pending = [] }

unfoldable pub track : OutstandingWantTracker → Bytes → ℕ → Bool × OutstandingWantTracker
track w identifier now = elim (find identifier w.pending) [
  | some _ ↦ (true, record { pending = insert identifier now w.pending })
  | none ↦
      if leb maximum_outstanding (length w.pending)
      then (false, w)
      else (true, record { pending = insert identifier now w.pending })
]

unfoldable pub redeem : OutstandingWantTracker → Bytes → Bool × OutstandingWantTracker
redeem w identifier = elim (find identifier w.pending) [
  | some _ ↦ (true, record { pending = erase identifier w.pending })
  | none ↦ (false, w)
]

unfoldable pub prune : OutstandingWantTracker → ℕ → OutstandingWantTracker
prune w now = record { pending = erase_if (λ asked. leb want_expiry (now - asked)) w.pending }
