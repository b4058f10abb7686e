-- ===== src/Announce/Connection/Cases.antt =====
-- The ways in which an event of a connection can end, so that a property of all events is shown
-- for each of these ends alone.
use wgrd_mod_manager.Common.{
  ℕ, ◌-◌, ◌≡◌, inl, inr, true, not, ◌&&◌, ◌||◌, some, List, ltb, leb, ◌==◌, if◌then◌else◌,
  Bool-cases, Option-cases, length, Bytes,
}
use wgrd_mod_manager.Announce.Wants.{redeem, prune}
use wgrd_mod_manager.Announce.Summary.{AnnounceSummary, identifier}
use wgrd_mod_manager.Announce.Wire.{
  AnnounceWireMessage, offer, want, record_message, ask, maximum_message_bytes, encode_ask,
  message_of, decode_offer, decode_want, decode_record, record_summary,
}
use wgrd_mod_manager.Announce.Exchange.{
  IAnnounces, AnnounceExchange, peer_opened, note_peer, holdings,
}
use wgrd_mod_manager.Announce.Connection.{
  local_message_id, reoffer_interval, holdings_poll_interval, ask_revision, Connection, Handshake,
  send, same_summaries, penalise_and_disconnect, send_offer, on_handshake, ask_for, handle_offer,
  serve_all, handle_want, take_in, handle_record, dispatch, on_extended, poll, tick,
}

-- What libtorrent calls.
pub data Event : Type 0 where
  handshakes : Handshake → ℕ → Event
  extends : ℕ → ℕ → Bytes → ℕ → Event
  ticks : ℕ → Event

unfoldable pub event :
    {S : Type 0}
    → IAnnounces S
    → Connection
    → AnnounceExchange S
    → Event
    → Connection × AnnounceExchange S
event i c x (handshakes h now) = (on_handshake i c x h now).1
event i c x (extends size message body now) = (on_extended i c x size message body now).1
event i c x (ticks now) = tick i c x now

-- something holds of the octets of a message
abbrev pub OfBody : (Bytes → Type 0) → Event → Type 0
OfBody Q (extends size message body now) = Q body
OfBody Q e = Unit

pub no_body : (e : Event) → OfBody (λ body. Unit {0}) e
no_body (handshakes h now) = tt
no_body (extends size message body now) = tt
no_body (ticks now) = tt

-- the connection whose want is redeemed
abbrev pub redeeming : Connection → AnnounceSummary → Connection
redeeming c s = record c { wants = (redeem c.wants (identifier s)).1 }

-- the exchange when the handshake has been noted, and the connection then
abbrev pub opened : {S : Type 0} → Connection → AnnounceExchange S → Handshake → AnnounceExchange S
opened c x h =
    peer_opened (if ltb 0 h.port && leb h.port 65535 then note_peer x c.peer h.port else x)

abbrev pub greeted : {S : Type 0} → Connection → AnnounceExchange S → Handshake → Connection
greeted c x h = record c {
  remote_message_id = h.message_id;
  remote_revision = h.revision;
  counted = true;
  seen_refresh = (opened c x h).refresh_generation;
}

-- the connection when its wants have been looked over, and when a refresh has been seen as well
abbrev pub polled : Connection → ℕ → Connection
polled c now = record c { last_holdings_poll = now; wants = prune c.wants now }

abbrev pub refreshed : {S : Type 0} → Connection → AnnounceExchange S → ℕ → Connection
refreshed c x now = record (polled c now) { seen_refresh = x.refresh_generation }

module _ {S : Type 0} (i : IAnnounces S) (Q : Bytes → Type 0)
    (P : Connection × AnnounceExchange S → Type 0) (c : Connection) (x : AnnounceExchange S) where
  pub record Ends : Type 0 where
    pub stays : P (c, x)
    pub is_penalised : (now : ℕ) → P (penalise_and_disconnect c x now)
    pub asks : (offered : List AnnounceSummary) (now : ℕ) → P (ask_for i c x offered now)
    pub serves_all : (wanted : List AnnounceSummary) → P (serve_all i c x wanted)
    pub takes_in :
        (body record_ : Bytes) (s : AnnounceSummary) (now : ℕ)
        → Q body
        → decode_record body ≡ some record_
        → record_summary record_ ≡ some s
        → (redeem c.wants (identifier s)).0 ≡ true
        → P (take_in i (redeeming c s) x record_ now)
    pub offers : (held : List AnnounceSummary) (now : ℕ) → P (send_offer c x held now)
    pub greets :
        (h : Handshake) (now : ℕ)
        → P (send_offer (greeted c x h) (opened c x h) (holdings i (opened c x h)) now)
    pub polls : (now : ℕ) → P (polled c now, x)
    pub polls_offering :
        (held : List AnnounceSummary) (now : ℕ) → P (send_offer (polled c now) x held now)
    pub refreshes_offering :
        (held : List AnnounceSummary) (now : ℕ) → P (send_offer (refreshed c x now) x held now)
    pub refreshes_asking :
        (held : List AnnounceSummary) (now : ℕ)
        → P (send_offer (send (refreshed c x now) encode_ask) x held now)

  module _ (e : Ends) where
    handshake-ends : (h : Handshake) (now : ℕ) → P (on_handshake i c x h now).1
    unfolding on_handshake
    handshake-ends h now = elim (Bool-cases (not h.is_dictionary || not h.has_messages)) [
      | inl f ↦ rw (f, on_handshake) e.stays
      | inr f ↦ elim (Bool-cases (h.message_id == 0 || ltb 255 h.message_id)) [
        | inl g ↦ rw (f, on_handshake) (rw g e.stays)
        | inr g ↦ rw (f, on_handshake) (rw g (e.greets h now))
      ]
    ]

    record-ends : (body : Bytes) (now : ℕ) → Q body → P (handle_record i c x body now)
    unfolding handle_record
    record-ends body now q = elim (Option-cases (decode_record body)) [
      | inl f ↦ rw (f, handle_record) (e.is_penalised now)
      | inr (record_, f) ↦ elim (Option-cases (record_summary record_)) [
        | inl g ↦ rw (f, handle_record) (rw g (e.is_penalised now))
        | inr (s, g) ↦ elim (Bool-cases (redeem c.wants (identifier s)).0) [
          | inl k ↦ rw (f, handle_record) (rw g (rw k (e.takes_in body record_ s now q f g k)))
          | inr k ↦ rw (f, handle_record) (rw g (rw k (e.is_penalised now)))
        ]
      ]
    ]

    dispatch-ends :
        (kind : AnnounceWireMessage) (body : Bytes) (now : ℕ)
        → Q body
        → P (dispatch i c x kind body now)
    unfolding dispatch handle_offer handle_want
    dispatch-ends offer body now q = elim (Option-cases (decode_offer body)) [
      | inl f ↦ rw (f, handle_offer) (e.is_penalised now)
      | inr (offered, f) ↦ rw (f, handle_offer) (e.asks offered now)
    ]
    dispatch-ends want body now q = elim (Option-cases (decode_want body)) [
      | inl f ↦ rw (f, handle_want) (e.is_penalised now)
      | inr (wanted, f) ↦ rw (f, handle_want) (e.serves_all wanted)
    ]
    dispatch-ends record_message body now q = record-ends body now q
    dispatch-ends ask body now q = e.offers (holdings i x) now

    extended-ends :
        (size message : ℕ) (body : Bytes) (now : ℕ)
        → Q body
        → P (on_extended i c x size message body now).1
    unfolding on_extended
    extended-ends size message body now q = elim (Bool-cases (not (message == local_message_id))) [
      | inl f ↦ rw (f, on_extended) e.stays
      | inr f ↦ elim (Bool-cases (ltb maximum_message_bytes size)) [
        | inl g ↦ rw (f, on_extended) (rw g (e.is_penalised now))
        | inr g ↦ elim (Bool-cases (ltb (length body) size)) [
          | inl k ↦ rw (f, on_extended) (rw g (rw k e.stays))
          | inr k ↦ elim (Option-cases (message_of body)) [
            | inl l ↦ rw (f, on_extended) (rw g (rw k (rw l e.stays)))
            | inr (kind, l) ↦
                rw (f, on_extended) (rw g (rw k (rw l (dispatch-ends kind body now q))))
          ]
        ]
      ]
    ]

    poll-ends : (now : ℕ) → P (poll i c x now)
    unfolding poll
    poll-ends now =
        let held = holdings i x in
        elim (Bool-cases (not (x.refresh_generation == c.seen_refresh))) [
          | inl f ↦ elim (Bool-cases (leb ask_revision c.remote_revision)) [
            | inl g ↦ rw (f, poll) (rw g (e.refreshes_asking held now))
            | inr g ↦ rw (f, poll) (rw g (e.refreshes_offering held now))
          ]
          | inr f ↦
              elim (Bool-cases
                (same_summaries held c.last_offered && ltb (now - c.last_offer) reoffer_interval)) [
                  | inl g ↦ rw (f, poll) (rw g (e.polls now))
                  | inr g ↦ rw (f, poll) (rw g (e.polls_offering held now))
                ]
        ]

    pub event-ends : (v : Event) → OfBody Q v → P (event i c x v)
    unfolding event tick
    event-ends (handshakes h now) q = handshake-ends h now
    event-ends (extends size message body now) q = extended-ends size message body now q
    event-ends (ticks now) q = elim (Bool-cases (c.remote_message_id == 0)) [
      | inl f ↦ rw (f, tick) e.stays
      | inr f ↦ elim (Bool-cases (ltb (now - c.last_holdings_poll) holdings_poll_interval)) [
        | inl g ↦ rw (f, tick) (rw g e.stays)
        | inr g ↦ rw (f, tick) (rw g (poll-ends now))
      ]
    ]
