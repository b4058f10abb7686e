-- ===== src/Announce/Exchange/Serving.antt =====
-- The exchange over the receiver: the catalogue and the receiver that the session gives it.
use wgrd_mod_manager.Common.{ℕ, ◌≡◌, List, [], ◌∷◌, arith, All, Bytes, AreBytes, is_ok}
use wgrd_mod_manager.Trust.Registry.{IKeyRegistry}
use wgrd_mod_manager.Announce.Receiver.{
  SignatureCheck, AnnounceReceiver, accept, would_accept, record_of, summaries,
}
use wgrd_mod_manager.Announce.Receiver.Invariant.{IsSound, accept-IsSound}
use wgrd_mod_manager.Announce.Exchange.{
  IAnnounces, AnnounceExchange, penalise_peer, peer_opened, peer_closed, count_offer_sent,
  count_offer_received, use_listen_port, note_peer, take_noted_peers, use_control_hashes,
  request_refresh, serve, receive, ingest,
}
use wgrd_mod_manager.Announce.Exchange.Counts.{
  Call, ingests, penalises, serves, opens, closes, sends_offer, receives_offer, takes_noted,
  refreshes, notes, uses_port, uses_hashes, step, run,
}

module _ (registry : IKeyRegistry) (sodium : SignatureCheck) where
  unfoldable pub receiver_announces : IAnnounces AnnounceReceiver
  receiver_announces = record {
    all_summaries = summaries;
    would_take = would_accept registry sodium;
    find_record = record_of;
    take_record =
        λ r record_. let (outcome, r') = accept registry sodium r record_ in (is_ok outcome, r');
  }

-- a call whose record, if it has one, is a string of octets
abbrev pub IsReadable : Call → Type 0
IsReadable (ingests peer record_ now) = AreBytes record_
IsReadable c = Unit

-- What taking in a record keeps, every call keeps.
module _ {S : Type 0} (i : IAnnounces S) (P : S → Type 0)
    (taken : (s : S) (record_ : Bytes)
      → AreBytes record_
      → P s
      → P (i.take_record s record_).1) where
  ingest-keeps :
      (x : AnnounceExchange S) (peer record_ : Bytes) (now : ℕ)
      → P x.announces
      → P (i.take_record x.announces record_).1
      → P (ingest i x peer record_ now).1.announces
  unfolding ingest receive
  ingest-keeps x peer record_ now p q = ground arith

  penalise_peer-keeps :
      (x : AnnounceExchange S) (peer : Bytes) (now : ℕ)
      → (penalise_peer x peer now).announces ≡ x.announces
  unfolding penalise_peer
  penalise_peer-keeps x peer now = ground arith

  step-keeps :
      (x : AnnounceExchange S) (c : Call) → IsReadable c → P x.announces → P (step i x c).announces
  unfolding step peer_opened peer_closed count_offer_sent count_offer_received take_noted_peers
      request_refresh use_listen_port use_control_hashes serve note_peer
  step-keeps x (ingests peer record_ now) b p =
      ingest-keeps x peer record_ now p (taken x.announces record_ b p)
  step-keeps x (penalises peer now) b p = rw (penalise_peer-keeps x peer now) p
  step-keeps x (serves wanted) b p = ground arith
  step-keeps x opens b p = p
  step-keeps x closes b p = ground arith
  step-keeps x sends_offer b p = p
  step-keeps x receives_offer b p = p
  step-keeps x takes_noted b p = p
  step-keeps x refreshes b p = p
  step-keeps x (notes address port) b p = ground arith
  step-keeps x (uses_port port) b p = p
  step-keeps x (uses_hashes hashes) b p = p

  run-keeps :
      (x : AnnounceExchange S) (cs : List Call)
      → All IsReadable cs
      → P x.announces
      → P (run i x cs).announces
  unfolding run
  run-keeps x [] b p = p
  run-keeps x (c ∷ cs) b p = run-keeps (step i x c) cs b.1 (step-keeps x c b.0 p)

module _ (registry : IKeyRegistry) (sodium : SignatureCheck) where
  -- From a receiver that is sound, whatever octets the peers send and in whatever order: after any
  -- calls of all connections, the receiver behind the exchange holds at most 4096 announces, one
  -- for each mod of a publisher, and each of them carries a signature that verifies under a
  -- registered, unrevoked key.
  pub run-IsSound :
      (x : AnnounceExchange AnnounceReceiver) (cs : List Call)
      → All IsReadable cs
      → IsSound registry sodium x.announces
      → IsSound registry sodium (run (receiver_announces registry sodium) x cs).announces
  unfolding receiver_announces
  run-IsSound x cs =
      run-keeps (receiver_announces registry sodium) (IsSound registry sodium)
        (accept-IsSound registry sodium) x cs
