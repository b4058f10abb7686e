-- ===== src/Announce/Exchange.antt =====
-- src/downloader/announce/AnnounceExchange and src/domain/types/status/GossipStatus.h: what all
-- peer connections share. The catalogue and the receiver are the interface `IAnnounces`; each
-- method takes the lock for its whole body, so a method is one step. `Clock::now()` is an argument.
mod Room
pub mod Victim
pub mod Budgets
pub mod Blocks
pub mod Counts
pub mod Peers
pub mod Serving
unfoldable pub use Room.*
use wgrd_mod_manager.Common.{
  ℕ, ◌+◌, ◌-◌, ◌*◌, ◌%◌, ◌^◌, Bool, true, false, ◌&&◌, ◌||◌, Option, none, some, List, [], ◌∷◌,
  ◌++◌, ltb, leb, ◌==◌, if◌then◌else◌, length, take, any, Bytes, same,
}
use wgrd_mod_manager.Common.Table.{Table, find, insert}
use wgrd_mod_manager.Announce.Summary.{AnnounceSummary}
use wgrd_mod_manager.Announce.Budget.{PeerAnnounceBudget, is_blocked, penalise, consume}
use wgrd_mod_manager.Announce.Wire.{maximum_entries}

-- `IAnnounceCatalogue` and `IAnnounceReceiver`, over the state of what implements them
pub record IAnnounces (S : Type 0) : Type 0 where
  pub all_summaries : S → List AnnounceSummary
  pub would_take : S → Bytes → Bytes → ℕ → Bool
  pub find_record : S → Bytes → Bytes → Option Bytes
  -- whether `Accept` has a value
  pub take_record : S → Bytes → Bool × S

pub record GossipStatus : Type 0 where
  pub running : Bool
  pub control_valid : Bool
  pub peers : ℕ
  pub control_peers : ℕ
  pub control_state : ℕ
  pub neighbour_dials : ℕ
  pub offers_sent : ℕ
  pub offers_received : ℕ
  pub records_sent : ℕ
  pub records_received : ℕ
  pub records_accepted : ℕ
  pub records_rejected : ℕ
  pub peers_throttled : ℕ
  pub protocol_violations : ℕ
  pub last_peer_error : Bytes

abbrev pub initial_status : GossipStatus
initial_status = record {
  running = true;
  control_valid = false;
  peers = 0;
  control_peers = 0;
  control_state = 0;
  neighbour_dials = 0;
  offers_sent = 0;
  offers_received = 0;
  records_sent = 0;
  records_received = 0;
  records_accepted = 0;
  records_rejected = 0;
  peers_throttled = 0;
  protocol_violations = 0;
  last_peer_error = [];
}

-- `++` on a `std::uint64_t` and on a `std::uint32_t`
abbrev pub bump_64 : ℕ → ℕ
bump_64 n = (n + 1) % 2 ^ 64

abbrev pub bump_32 : ℕ → ℕ
bump_32 n = (n + 1) % 2 ^ 32

pub record AnnounceExchange (S : Type 0) : Type 0 where
  pub announces : S
  pub budgets : Table PeerAnnounceBudget
  pub status : GossipStatus
  pub control_hashes : Bytes
  pub noted : List (Bytes × ℕ)
  pub refresh_generation : ℕ
  pub listen_port : ℕ

-- `std::ranges::find` among the noted peers
unfoldable pub is_noted : List (Bytes × ℕ) → Bytes → ℕ → Bool
is_noted noted address port = any (λ p. same p.0 address && p.1 == port) noted

module _ {S : Type 0} where
  unfoldable pub peer_blocked : AnnounceExchange S → Bytes → ℕ → Bool
  peer_blocked x peer now = elim (find peer x.budgets) [
    | none ↦ false
    | some known ↦ is_blocked known now
  ]

  unfoldable pub penalise_peer : AnnounceExchange S → Bytes → ℕ → AnnounceExchange S
  penalise_peer x peer now =
      let counted = record (x.status) {
        protocol_violations = bump_64 (x.status.protocol_violations);
      } in
      elim (ensure_budget x.budgets peer now) [
        | none ↦ record x { status = counted }
        | some (budget, budgets) ↦ record x {
          budgets = insert peer (penalise budget now) budgets;
          status = counted;
        }
      ]

  unfoldable pub peer_opened : AnnounceExchange S → AnnounceExchange S
  peer_opened x = record x { status = record (x.status) { peers = bump_32 (x.status.peers) } }

  unfoldable pub peer_closed : AnnounceExchange S → AnnounceExchange S
  peer_closed x =
      if ltb 0 x.status.peers
      then record x { status = record (x.status) { peers = x.status.peers - 1 } }
      else x

  unfoldable pub count_offer_sent : AnnounceExchange S → AnnounceExchange S
  count_offer_sent x = record x {
    status = record (x.status) { offers_sent = bump_64 (x.status.offers_sent) };
  }

  unfoldable pub count_offer_received : AnnounceExchange S → AnnounceExchange S
  count_offer_received x = record x {
    status = record (x.status) { offers_received = bump_64 (x.status.offers_received) };
  }

  unfoldable pub use_listen_port : AnnounceExchange S → ℕ → AnnounceExchange S
  use_listen_port x port = record x { listen_port = port }

  unfoldable pub note_peer : AnnounceExchange S → Bytes → ℕ → AnnounceExchange S
  note_peer x address port =
      if length address == 0 || port == 0
      then x
      else if leb maximum_tracked_peers (length x.noted)
      then x
      else if is_noted x.noted address port
      then x
      else record x { noted = x.noted ++ (address, port) ∷ [] }

  unfoldable pub take_noted_peers : AnnounceExchange S → List (Bytes × ℕ) × AnnounceExchange S
  take_noted_peers x = (x.noted, record x { noted = [] })

  unfoldable pub use_control_hashes : AnnounceExchange S → Bytes → AnnounceExchange S
  use_control_hashes x hashes = record x { control_hashes = hashes }

  unfoldable pub is_control : AnnounceExchange S → Bytes → Bool
  is_control x hashes = same x.control_hashes hashes

  unfoldable pub request_refresh : AnnounceExchange S → AnnounceExchange S
  request_refresh x = record x { refresh_generation = bump_64 x.refresh_generation }

module _ {S : Type 0} (i : IAnnounces S) where
  unfoldable pub holdings : AnnounceExchange S → List AnnounceSummary
  holdings x = take maximum_entries (i.all_summaries x.announces)

  -- the loop of `Missing`, with what is wanted so far
  unfoldable pub missing_from :
      S → List AnnounceSummary → List AnnounceSummary → List AnnounceSummary
  missing_from s wanted [] = wanted
  missing_from s wanted (summary ∷ offered) =
      let taken = i.would_take s summary.publisher summary.mod_name summary.version in
      let rest = missing_from s (if taken then wanted ++ summary ∷ [] else wanted) offered in
      if leb maximum_entries (length wanted) then wanted else rest

  unfoldable pub missing : AnnounceExchange S → List AnnounceSummary → List AnnounceSummary
  unfolding missing_from
  missing x = missing_from x.announces []

  unfoldable pub serve : AnnounceExchange S → AnnounceSummary → Option Bytes × AnnounceExchange S
  serve x wanted = elim (i.find_record x.announces wanted.publisher wanted.mod_name) [
    | none ↦ (none, x)
    | some served ↦ (
      some served,
      record x { status = record (x.status) { records_sent = bump_64 (x.status.records_sent) } },
    )
  ]

  -- the part of `Ingest` behind the budget
  unfoldable pub receive : AnnounceExchange S → Bytes → Bool × AnnounceExchange S
  receive x record_ =
      let (accepted, s) = i.take_record x.announces record_ in
      if accepted
      then (
        true,
        record x {
          announces = s;
          status = record (x.status) { records_accepted = bump_64 (x.status.records_accepted) };
        },
      )
      else (
        false,
        record x {
          announces = s;
          status = record (x.status) { records_rejected = bump_64 (x.status.records_rejected) };
        },
      )

  abbrev pub throttled : AnnounceExchange S → AnnounceExchange S
  throttled x = record x {
    status = record (x.status) { peers_throttled = bump_64 (x.status.peers_throttled) };
  }

  unfoldable pub ingest : AnnounceExchange S → Bytes → Bytes → ℕ → Bool × AnnounceExchange S
  ingest x peer record_ now =
      let counted = record x {
        status = record (x.status) { records_received = bump_64 (x.status.records_received) };
      } in
      elim (ensure_budget counted.budgets peer now) [
        | none ↦ (false, throttled counted)
        | some (budget, budgets) ↦
            let (allowed, spent) = consume budget now in
            let charged = record counted { budgets = insert peer spent budgets } in
            if allowed then receive charged record_ else (false, throttled charged)
      ]
