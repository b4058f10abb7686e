-- ===== src/Tests/Gossip.antt =====
-- Budgets, wants and the receiver.

use wgrd_mod_manager.Tests.Data.{
  registry, sodium, announce, announce_record, receiver, announce_record-decode,
}
use wgrd_mod_manager.Trust.Registry.{RegisteredKey, key_registry}
use wgrd_mod_manager.Common.Table.{find}
use wgrd_mod_manager.Announce.Codec.{encode_signable}
use wgrd_mod_manager.Announce.Budget.Ladder.{Climbs, penalise-Climbs}
use wgrd_mod_manager.Announce.Budget.{burst_allowance, second, refill_interval, fresh}
use wgrd_mod_manager.Announce.Receiver.Versions.{Newer, accept-Newer}
use wgrd_mod_manager.Announce.Receiver.Judgement.{Judges, accept-Judges}
use wgrd_mod_manager.Announce.Receiver.{identity, accept, would_accept}
use wgrd_mod_manager.Common.{
  ◌+◌, ◌-◌, ◌*◌, ◌/◌, ◌≤◌, ◌≡◌, refl, sym, ap, true, some, [], ◌∷◌, arith, ◌==◌, some-injective,
  get_or, same, is_ok,
}
use wgrd_mod_manager.Announce.Receiver.Offers.{would_accept-accept}
use wgrd_mod_manager.Announce.Budget.Rate.{accepted, accepted_rate}

-- nine records at once, and one a minute later
accepted_rate_example :
    accepted fresh (0 ∷ 0 ∷ 0 ∷ 0 ∷ 0 ∷ 0 ∷ 0 ∷ 0 ∷ 0 ∷ 60 * second ∷ [])
    ≤ burst_allowance + (60 * second - 0) / refill_interval
accepted_rate_example =
    accepted_rate 0 (0 ∷ 0 ∷ 0 ∷ 0 ∷ 0 ∷ 0 ∷ 0 ∷ 0 ∷ 60 * second ∷ []) (ground arith)

penalise-Climbs_example : Climbs fresh 0 0 (5 ∷ 6 ∷ 7 ∷ 9000 * second ∷ [])
penalise-Climbs_example = penalise-Climbs fresh 0 (5 ∷ 6 ∷ 7 ∷ 9000 * second ∷ []) (omega arith)

accept-Newer_example :
    Newer
      (find (identity announce) receiver.retained)
      (find (identity announce) (accept registry sodium receiver announce_record).1.retained)
accept-Newer_example = accept-Newer registry sodium receiver announce_record (identity announce)

accept-Judges_example :
    Judges registry sodium receiver announce_record
      (accept registry sodium receiver announce_record)
accept-Judges_example = accept-Judges registry sodium receiver announce_record

key-verifies :
    (k : RegisteredKey)
    → registry.find_key announce.publisher ≡ some k
    → sodium.verifies announce.signature (encode_signable announce) k.public_key ≡ true
unfolding key_registry same
key-verifies k e = ap (λ p. 7 == get_or p 0 0) (ap (λ r. r.public_key) (sym (some-injective e)))

would_accept-accept_example :
    is_ok (accept registry sodium receiver announce_record).0
    ≡ would_accept registry sodium receiver announce.publisher announce.mod_name announce.version
would_accept-accept_example =
    would_accept-accept registry sodium receiver announce_record announce announce_record-decode
      refl key-verifies
