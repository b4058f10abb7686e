-- ===== src/Announce/Connection.antt =====
-- src/downloader/announce/AnnounceGossipPeerPlugin: one connection to a peer that speaks the
-- announce protocol. The handlers act on the exchange that all connections share. libtorrent calls
-- them; what they hand back to it (the frames to send, the disconnect) is kept in the state. The
-- clock is read once for each event.
mod State
pub mod Cases
pub mod Calls
pub mod Asked
pub mod Bounds
pub mod Opened
unfoldable pub use State.*
use wgrd_mod_manager.Common.{
  ℕ, ◌-◌, ◌*◌, Bool, true, false, not, ◌&&◌, ◌||◌, none, some, List, [], ◌∷◌, ltb, leb, ◌==◌,
  if◌then◌else◌, length, Bytes,
}
use wgrd_mod_manager.Announce.Wants.{redeem, prune}
use wgrd_mod_manager.Announce.Summary.{AnnounceSummary, identifier}
use wgrd_mod_manager.Announce.Wire.{
  AnnounceWireMessage, offer, want, record_message, ask, maximum_message_bytes, encode_offer,
  encode_want, encode_record, encode_ask, message_of, decode_offer, decode_want, decode_record,
  record_summary,
}
use wgrd_mod_manager.Announce.Exchange.{
  IAnnounces, AnnounceExchange, peer_blocked, penalise_peer, peer_opened, peer_closed,
  count_offer_sent, count_offer_received, note_peer, holdings, missing, serve, ingest,
}

module _ {S : Type 0} where
  -- `PenaliseAndDisconnect_`
  unfoldable pub penalise_and_disconnect :
      Connection → AnnounceExchange S → ℕ → Connection × AnnounceExchange S
  penalise_and_disconnect c x now = (record c { disconnected = true }, penalise_peer x c.peer now)

  unfoldable pub send_offer :
      Connection → AnnounceExchange S → List AnnounceSummary → ℕ → Connection × AnnounceExchange S
  send_offer c x held now = (
    record (send c (encode_offer held)) { last_offered = held; last_offer = now },
    count_offer_sent x,
  )

module _ {S : Type 0} (i : IAnnounces S) where
  unfoldable pub on_handshake :
      Connection → AnnounceExchange S → Handshake → ℕ → Bool × (Connection × AnnounceExchange S)
  on_handshake c x h now =
      let noted = if ltb 0 h.port && leb h.port 65535 then note_peer x c.peer h.port else x in
      let opened = peer_opened noted in
      let greeted = record c {
        remote_message_id = h.message_id;
        remote_revision = h.revision;
        counted = true;
        seen_refresh = opened.refresh_generation;
      } in
      if not h.is_dictionary || not h.has_messages
      then (false, (c, x))
      else if h.message_id == 0 || ltb 255 h.message_id
      then (false, (c, x))
      else (true, send_offer greeted opened (holdings i opened) now)

  -- `HandleOffer_` behind the decoding
  unfoldable pub ask_for :
      Connection → AnnounceExchange S → List AnnounceSummary → ℕ → Connection × AnnounceExchange S
  ask_for c x offered now =
      let x' = count_offer_received x in
      let wanted = missing i x' offered in
      let (tracked, wants) = track_all (prune c.wants now) now wanted in
      let c' = record c { wants = wants } in
      if length wanted == 0
      then (c, x')
      else if length tracked == 0
      then (c', x')
      else (send c' (encode_want tracked), x')

  unfoldable pub handle_offer :
      Connection → AnnounceExchange S → Bytes → ℕ → Connection × AnnounceExchange S
  handle_offer c x body now = elim (decode_offer body) [
    | none ↦ penalise_and_disconnect c x now
    | some offered ↦ ask_for c x offered now
  ]

  -- the loop of `HandleWant_`
  unfoldable pub serve_all :
      Connection → AnnounceExchange S → List AnnounceSummary → Connection × AnnounceExchange S
  serve_all c x [] = (c, x)
  serve_all c x (s ∷ wanted) =
      let (served, x') = serve i x s in
      elim served [
        | none ↦ serve_all c x' wanted
        | some record_ ↦ serve_all (send c (encode_record record_)) x' wanted
      ]

  unfoldable pub handle_want :
      Connection → AnnounceExchange S → Bytes → ℕ → Connection × AnnounceExchange S
  handle_want c x body now = elim (decode_want body) [
    | none ↦ penalise_and_disconnect c x now
    | some wanted ↦ serve_all c x wanted
  ]

  -- `HandleRecord_` behind the test that the record was asked for
  unfoldable pub take_in :
      Connection → AnnounceExchange S → Bytes → ℕ → Connection × AnnounceExchange S
  take_in c x record_ now =
      let (taken, x') = ingest i x c.peer record_ now in
      if not taken && peer_blocked x' c.peer now
      then (record c { disconnected = true }, x')
      else (c, x')

  unfoldable pub handle_record :
      Connection → AnnounceExchange S → Bytes → ℕ → Connection × AnnounceExchange S
  handle_record c x body now = elim (decode_record body) [
    | none ↦ penalise_and_disconnect c x now
    | some record_ ↦ elim (record_summary record_) [
      | none ↦ penalise_and_disconnect c x now
      | some s ↦
          let (asked, wants) = redeem c.wants (identifier s) in
          if asked
          then take_in (record c { wants = wants }) x record_ now
          else penalise_and_disconnect c x now
    ]
  ]

  -- the `switch` of `on_extended`
  unfoldable pub dispatch :
      Connection
      → AnnounceExchange S
      → AnnounceWireMessage
      → Bytes
      → ℕ
      → Connection × AnnounceExchange S
  dispatch c x offer body now = handle_offer c x body now
  dispatch c x want body now = handle_want c x body now
  dispatch c x record_message body now = handle_record c x body now
  dispatch c x ask body now = send_offer c x (holdings i x) now

  unfoldable pub on_extended :
      Connection → AnnounceExchange S → ℕ → ℕ → Bytes → ℕ → Bool × (Connection × AnnounceExchange S)
  on_extended c x size message body now =
      if not (message == local_message_id)
      then (false, (c, x))
      else if ltb maximum_message_bytes size
      then (true, penalise_and_disconnect c x now)
      else if ltb (length body) size
      then (true, (c, x))
      else elim (message_of body) [
        | none ↦ (true, (c, x))
        | some kind ↦ (true, dispatch c x kind body now)
      ]

  -- `tick` behind the test of the poll interval
  unfoldable pub poll : Connection → AnnounceExchange S → ℕ → Connection × AnnounceExchange S
  poll c x now =
      let polled = record c { last_holdings_poll = now; wants = prune c.wants now } in
      let refreshed = record polled { seen_refresh = x.refresh_generation } in
      let asked =
        if leb ask_revision c.remote_revision then send refreshed encode_ask else refreshed in
      let held = holdings i x in
      if not (x.refresh_generation == c.seen_refresh)
      then send_offer asked x held now
      else if same_summaries held c.last_offered && ltb (now - c.last_offer) reoffer_interval
      then (polled, x)
      else send_offer polled x held now

  unfoldable pub tick : Connection → AnnounceExchange S → ℕ → Connection × AnnounceExchange S
  tick c x now =
      if c.remote_message_id == 0
      then (c, x)
      else if ltb (now - c.last_holdings_poll) holdings_poll_interval
      then (c, x)
      else poll c x now

  -- the destructor
  unfoldable pub close : Connection → AnnounceExchange S → AnnounceExchange S
  close c x = if c.counted then peer_closed x else x
