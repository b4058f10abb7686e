-- ===== src/Announce/Connection/State.antt =====
-- src/downloader/announce/AnnounceGossipPeerPlugin: the state of one connection, and what it sends.
use wgrd_mod_manager.Common.{
  ℕ, ◌+◌, ◌*◌, ◌/◌, ◌%◌, ◌^◌, Bool, true, false, ◌&&◌, ◌||◌, List, [], ◌∷◌, ◌++◌, ltb, ◌==◌,
  if◌then◌else◌, length, Bytes, same,
}
use wgrd_mod_manager.Announce.Budget.{second}
use wgrd_mod_manager.Announce.Wants.{OutstandingWantTracker, no_wants, track}
use wgrd_mod_manager.Announce.Summary.{AnnounceSummary, identifier}
use wgrd_mod_manager.Announce.Wire.{maximum_message_bytes}

abbrev pub local_message_id : ℕ
local_message_id = 111

abbrev pub extended_message : ℕ
extended_message = 20

abbrev pub extension_header_bytes : ℕ
extension_header_bytes = 2

abbrev pub reoffer_interval : ℕ
reoffer_interval = 60 * second

abbrev pub holdings_poll_interval : ℕ
holdings_poll_interval = 2 * second

abbrev pub ask_revision : ℕ
ask_revision = 1

pub record Connection : Type 0 where
  -- `PeerKey_`, which libtorrent knows
  pub peer : Bytes
  pub remote_message_id : ℕ
  pub counted : Bool
  pub wants : OutstandingWantTracker
  pub last_offered : List AnnounceSummary
  pub last_offer : ℕ
  pub last_holdings_poll : ℕ
  pub seen_refresh : ℕ
  pub remote_revision : ℕ
  -- what `send_buffer` was given
  pub sent : List Bytes
  -- whether `disconnect` was called
  pub disconnected : Bool

abbrev pub new_connection : Bytes → Connection
new_connection peer = record {
  peer = peer;
  remote_message_id = 0;
  counted = false;
  wants = no_wants;
  last_offered = [];
  last_offer = 0;
  last_holdings_poll = 0;
  seen_refresh = 0;
  remote_revision = 0;
  sent = [];
  disconnected = false;
}

-- What the handshake of the peer says. A number that is missing or negative is 0 here: the handler
-- treats the two alike.
pub record Handshake : Type 0 where
  pub is_dictionary : Bool
  pub has_messages : Bool
  pub message_id : ℕ
  pub revision : ℕ
  pub port : ℕ

-- the length prefix, most significant byte first
unfoldable pub frame_of : ℕ → Bytes → Bytes
frame_of message_id payload =
    let size = extension_header_bytes + length payload in
    size / 2 ^ 24 % 256
    ∷ size / 2 ^ 16 % 256
    ∷ size / 2 ^ 8 % 256
    ∷ size % 256
    ∷ extended_message
    ∷ message_id
    ∷ payload

unfoldable pub send : Connection → Bytes → Connection
send c payload =
    if c.remote_message_id == 0 || length payload == 0
    then c
    else if ltb maximum_message_bytes (length payload)
    then c
    else record c { sent = c.sent ++ frame_of c.remote_message_id payload ∷ [] }

unfoldable pub same_summary : AnnounceSummary → AnnounceSummary → Bool
same_summary a b =
    same a.publisher b.publisher && same a.mod_name b.mod_name && a.version == b.version

-- `==` of two vectors
unfoldable pub same_summaries : List AnnounceSummary → List AnnounceSummary → Bool
same_summaries [] [] = true
same_summaries [] (b ∷ bs) = false
same_summaries (a ∷ as_) [] = false
same_summaries (a ∷ as_) (b ∷ bs) = same_summary a b && same_summaries as_ bs

-- the loop of `HandleOffer_`: what could be tracked, in order, and the wants with it
unfoldable pub track_all :
    OutstandingWantTracker
    → ℕ
    → List AnnounceSummary
    → List AnnounceSummary × OutstandingWantTracker
unfolding track
track_all wants now [] = ([], wants)
track_all wants now (s ∷ wanted) =
    let (taken, wants') = track wants (identifier s) now in
    let (tracked, wants'') = track_all wants' now wanted in
    (if taken then s ∷ tracked else tracked, wants'')
