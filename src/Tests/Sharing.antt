-- ===== src/Tests/Sharing.antt =====
-- The exchange.

use wgrd_mod_manager.Common.{◌*◌, ◌≡◌, true, false, List, [], ◌∷◌, arith}
use wgrd_mod_manager.Announce.Budget.{second}
use wgrd_mod_manager.Announce.Receiver.Invariant.{IsSound}
use wgrd_mod_manager.Announce.Exchange.{bump_64, peer_blocked, ingest}
use wgrd_mod_manager.Announce.Exchange.Blocks.{ingest-blocked, ingest_refused}
use wgrd_mod_manager.Announce.Exchange.Counts.{
  IsOrderly, Call, ingests, penalises, opens, closes, takes_noted, notes, run, run-IsOrderly,
}
use wgrd_mod_manager.Announce.Exchange.Serving.{run-IsSound}
use wgrd_mod_manager.Tests.Data.{
  octets, registry, sodium, receiver-IsSound, exchange, announces, peer, other_peer,
  exchange-IsOrderly, blocking, blocking-AreBudgets, blocking-blocked,
}

abbrev calls : List Call
calls =
    opens
    ∷ ingests peer (octets 3 9) 5
    ∷ penalises peer 6
    ∷ notes peer 6881
    ∷ takes_noted
    ∷ closes
    ∷ []

run-IsSound_example : IsSound registry sodium (run announces exchange calls).announces
run-IsSound_example = run-IsSound registry sodium exchange calls (ground arith) receiver-IsSound

run-IsOrderly_example : IsOrderly (run announces exchange calls)
run-IsOrderly_example = run-IsOrderly announces exchange calls exchange-IsOrderly

ingest-blocked_example :
    peer_blocked
      (ingest announces blocking other_peer (octets 3 9) (50 * second)).1
      peer
      (60 * second)
    ≡ true
ingest-blocked_example =
    ingest-blocked announces blocking other_peer (octets 3 9) peer (50 * second) (60 * second)
      blocking-AreBudgets (omega arith) blocking-blocked

ingest_refused_example :
    ((ingest announces blocking peer (octets 3 9) (60 * second)).0 ≡ false)
    × ((ingest announces blocking peer (octets 3 9) (60 * second)).1.announces ≡ blocking.announces)
    × ((ingest announces blocking peer (octets 3 9) (60 * second)).1.status.peers_throttled
        ≡ bump_64 (blocking.status.peers_throttled))
ingest_refused_example =
    ingest_refused announces blocking peer (octets 3 9) (60 * second) blocking-blocked
