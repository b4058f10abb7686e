-- ===== src/Tests/Data.antt =====
-- What the tests are about: a publisher with a registered key, an announce of a mod, and peers.

use wgrd_mod_manager.Announce.Receiver.{SignatureCheck, AnnounceReceiver, identity}
use wgrd_mod_manager.Announce.Receiver.Invariant.{IsSound}
use wgrd_mod_manager.Common.{
  ℕ, ◌*◌, ◌≡◌, refl, true, false, some, [], ◌∷◌, arith, ltb, ◌==◌, get_or, replicate, all, Bytes,
  codes, AreBytes, same, lex, ok,
}
use wgrd_mod_manager.Announce.Summary.{AnnounceSummary, IsSummary}
use wgrd_mod_manager.Announce.Codec.{SignedAnnounce, encode, decode, IsAnnounce}
use wgrd_mod_manager.Announce.Codec.RoundTrip.{decode-encode}
use wgrd_mod_manager.Domain.Names.{is_mod_name_char, is_acceptable_mod_name}
use wgrd_mod_manager.Common.Table.{find}
use wgrd_mod_manager.Trust.Registry.{RegisteredKey, IKeyRegistry, key_registry}
use wgrd_mod_manager.Announce.Budget.{second, PeerAnnounceBudget, fresh, is_blocked}
use wgrd_mod_manager.Announce.Exchange.{IAnnounces, initial_status, AnnounceExchange, peer_blocked}
use wgrd_mod_manager.Announce.Exchange.Budgets.{AreBudgets}
use wgrd_mod_manager.Announce.Exchange.Counts.{IsOrderly}
use wgrd_mod_manager.Announce.Exchange.Serving.{receiver_announces}

abbrev pub publisher : Bytes
publisher = 1 ∷ 2 ∷ 3 ∷ 4 ∷ 5 ∷ 6 ∷ 7 ∷ 8 ∷ []

abbrev pub octets : ℕ → ℕ → Bytes
octets n c = replicate {A = ℕ} n c

abbrev pub key : RegisteredKey
key = record {
  fingerprint = publisher;
  public_key = octets 32 7;
  publisher = codes "a team";
  revoked = false;
}

abbrev pub registry : IKeyRegistry
registry = key_registry (key ∷ [])

-- A signature that begins like the key that made it.
abbrev pub sodium : SignatureCheck
sodium = record {
  is_ready = true;
  verifies = λ signature message public_key. get_or signature 0 0 == get_or public_key 0 0;
}

abbrev pub announce : SignedAnnounce
announce = record {
  publisher = publisher;
  mod_name = codes "abc";
  version = 2;
  manifest_digest = octets 32 5;
  torrent_info_hash = octets 32 6;
  signature = octets 64 7;
}

abbrev pub summary : AnnounceSummary
summary = record { publisher = publisher; mod_name = codes "abc"; version = 2 }

pub announce-IsAnnounce : IsAnnounce announce
unfolding is_acceptable_mod_name is_mod_name_char
announce-IsAnnounce = record {
  publisher_length = refl;
  publisher_bytes = ground arith;
  name_accepted = refl;
  version_lt = omega arith;
  manifest_digest_length = refl;
  torrent_info_hash_length = refl;
  signature_length = refl;
}

pub summary-IsSummary : IsSummary summary
unfolding is_acceptable_mod_name is_mod_name_char
summary-IsSummary = record {
  publisher_length = refl;
  name_accepted = refl;
  version_lt = omega arith;
}

-- the record of the announce
abbrev pub announce_record : Bytes
announce_record = encode announce

abbrev pub receiver : AnnounceReceiver
receiver = record { retained = []; rejected = 0; saved = some [] }

pub receiver-IsSound : IsSound registry sodium receiver
receiver-IsSound = record { ascends = tt; size_max = omega arith; genuine = tt }

abbrev pub exchange : AnnounceExchange AnnounceReceiver
exchange = record {
  announces = receiver;
  budgets = [];
  status = initial_status;
  control_hashes = [];
  noted = [];
  refresh_generation = 0;
  listen_port = 0;
}

abbrev pub announces : IAnnounces AnnounceReceiver
announces = receiver_announces registry sodium

abbrev pub peer : Bytes
peer = codes "10.0.0.1"

abbrev pub other_peer : Bytes
other_peer = codes "10.0.0.2"

pub exchange-IsOrderly : IsOrderly exchange
exchange-IsOrderly = record {
  counted = omega arith;
  budgets = record { ascends = tt; size_max = omega arith; valid = tt };
  noted_max = omega arith;
  reachable = tt;
}

-- a peer blocked until the hundredth second
abbrev pub blocked_budget : PeerAnnounceBudget
blocked_budget = record fresh { blocked_until = 100 * second; next_block = 300 }

abbrev pub blocking : AnnounceExchange AnnounceReceiver
blocking = record exchange { budgets = (peer, blocked_budget) ∷ [] }

pub blocking-AreBudgets : AreBudgets blocking.budgets
blocking-AreBudgets = record {
  ascends = ground arith;
  size_max = omega arith;
  valid = (
    record {
      allowance_max = omega arith;
      block_min = omega arith;
      block_max = omega arith;
      overage_max = omega arith;
    },
    tt,
  );
}

pub blocking-blocked : peer_blocked blocking peer (60 * second) ≡ true
unfolding peer_blocked find lex is_blocked same
blocking-blocked = refl

-- to find by a computation that numbers are octets
pub are_bytes : (bytes : Bytes) → all (λ c. ltb c 256) bytes ≡ true → AreBytes bytes
are_bytes [] h = tt
are_bytes (c ∷ bytes) h = ground (arith, are_bytes bytes)

pub announce_record-decode : decode announce_record ≡ ok announce
announce_record-decode = decode-encode announce announce-IsAnnounce

-- a receiver that retains the announce
abbrev pub holder : AnnounceReceiver
holder = record receiver { retained = (identity announce, announce) ∷ [] }

pub holder-IsSound : IsSound registry sodium holder
unfolding key_registry same
holder-IsSound = record {
  ascends = ground arith;
  size_max = omega arith;
  genuine = (
    record {
      under_identity = refl;
      well_formed = announce-IsAnnounce;
      trusted = record { key = key; registered = refl; unrevoked = refl; verified = refl };
    },
    tt,
  );
}
