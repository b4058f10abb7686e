-- ===== src/Announce/Connection/Bounds.antt =====
-- What a connection keeps and sends stays in bounds.
use wgrd_mod_manager.Common.{
  ℕ, ◌+◌, ◌≤◌, inl, inr, not, ◌&&◌, ◌||◌, List, [], ◌∷◌, arith, ltb, ◌==◌, Bool-cases, Option-cases,
  length, All, All-append, Bytes,
}
use wgrd_mod_manager.Announce.Connection.Cases.{
  Event, event, no_body, redeeming, opened, greeted, polled, refreshed, Ends, event-ends,
}
use wgrd_mod_manager.Announce.Connection.{
  extension_header_bytes, Connection, new_connection, frame_of, send, track_all,
  penalise_and_disconnect, send_offer, ask_for, serve_all, take_in,
}
use wgrd_mod_manager.Announce.Exchange.{
  IAnnounces, AnnounceExchange, peer_blocked, count_offer_received, missing, serve, ingest,
}
use wgrd_mod_manager.Announce.Wire.{
  maximum_message_bytes, encode_offer, encode_want, encode_record, encode_ask,
}
use wgrd_mod_manager.Announce.Wants.{OutstandingWantTracker, track, prune}
use wgrd_mod_manager.Announce.Wants.Laws.{
  IsBounded, track-IsBounded, redeem-IsBounded, prune-IsBounded,
}
use wgrd_mod_manager.Announce.Summary.{AnnounceSummary, identifier}

-- a length prefix, the two bytes of the extension header, and a message of the protocol
abbrev pub IsFrame : Bytes → Type 0
IsFrame frame = length frame ≤ 4 + (extension_header_bytes + maximum_message_bytes)

pub record IsConnection (c : Connection) : Type 0 where
  pub bounded : IsBounded c.wants
  pub framed : All IsFrame c.sent

pub new_connection-IsConnection : (peer : Bytes) → IsConnection (new_connection peer)
new_connection-IsConnection peer = record {
  bounded = record { ascends = tt; size_max = omega arith };
  framed = tt;
}

send-IsConnection :
    (c : Connection) (payload : Bytes) → IsConnection c → IsConnection (send c payload)
unfolding send frame_of
send-IsConnection c payload v =
    elim (Bool-cases (c.remote_message_id == 0 || length payload == 0)) [
      | inl e ↦ rw (e, send) v
      | inr e ↦ elim (Bool-cases (ltb maximum_message_bytes (length payload))) [
        | inl f ↦ rw (e, send) (rw f v)
        | inr f ↦
            rw (e, send)
              (rw f (record {
                bounded = v.bounded;
                framed =
                    All-append IsFrame c.sent (frame_of c.remote_message_id payload ∷ []) v.framed
                      (ground arith, tt);
              }))
      ]
    ]

track_all-IsBounded :
    (w : OutstandingWantTracker) (now : ℕ) (wanted : List AnnounceSummary)
    → IsBounded w
    → IsBounded (track_all w now wanted).1
unfolding track_all
track_all-IsBounded w now [] v = v
track_all-IsBounded w now (s ∷ wanted) v =
    track_all-IsBounded (track w (identifier s) now).1 now wanted
      (track-IsBounded w (identifier s) now v)

module _ {S : Type 0} (i : IAnnounces S) where
  send_offer-IsConnection :
      (c : Connection) (x : AnnounceExchange S) (held : List AnnounceSummary) (now : ℕ)
      → IsConnection c
      → IsConnection (send_offer c x held now).0
  unfolding send_offer
  send_offer-IsConnection c x held now v =
      let w = send-IsConnection c (encode_offer held) v in
      record { bounded = w.bounded; framed = w.framed }

  ask_for-IsConnection :
      (c : Connection) (x : AnnounceExchange S) (offered : List AnnounceSummary) (now : ℕ)
      → IsConnection c
      → IsConnection (ask_for i c x offered now).0
  unfolding ask_for
  ask_for-IsConnection c x offered now v =
      let wanted = missing i (count_offer_received x) offered in
      let (tracked, wants) = track_all (prune c.wants now) now wanted in
      let c' : Connection = record c { wants = wants } in
      let v' : IsConnection c' = record {
        bounded =
            track_all-IsBounded (prune c.wants now) now wanted
              (prune-IsBounded c.wants now v.bounded);
        framed = v.framed;
      } in
      elim (Bool-cases (length wanted == 0)) [
        | inl e ↦ rw (e, ask_for) v
        | inr e ↦ elim (Bool-cases (length tracked == 0)) [
          | inl f ↦ rw (e, ask_for) (rw f v')
          | inr f ↦ rw (e, ask_for) (rw f (send-IsConnection c' (encode_want tracked) v'))
        ]
      ]

  serve_all-IsConnection :
      (c : Connection) (x : AnnounceExchange S) (wanted : List AnnounceSummary)
      → IsConnection c
      → IsConnection (serve_all i c x wanted).0
  unfolding serve_all
  serve_all-IsConnection c x [] v = v
  serve_all-IsConnection c x (s ∷ wanted) v =
      let y = (serve i x s).1 in
      elim (Option-cases (serve i x s).0) [
        | inl e ↦ rw (e, serve_all) (serve_all-IsConnection c y wanted v)
        | inr (b, e) ↦
            rw (e, serve_all)
              (serve_all-IsConnection (send c (encode_record b)) y wanted
                (send-IsConnection c (encode_record b) v))
      ]

  penalised-IsConnection :
      (c : Connection) (x : AnnounceExchange S) (now : ℕ)
      → IsConnection c
      → IsConnection (penalise_and_disconnect c x now).0
  unfolding penalise_and_disconnect
  penalised-IsConnection c x now v = record { bounded = v.bounded; framed = v.framed }

  take_in-IsConnection :
      (c : Connection) (x : AnnounceExchange S) (record_ : Bytes) (now : ℕ)
      → IsConnection c
      → IsConnection (take_in i c x record_ now).0
  unfolding take_in
  take_in-IsConnection c x record_ now v =
      let (taken, x') = ingest i x c.peer record_ now in
      elim (Bool-cases (not taken && peer_blocked x' c.peer now)) [
        | inl e ↦ rw (e, take_in) (record { bounded = v.bounded; framed = v.framed })
        | inr e ↦ rw (e, take_in) v
      ]

  ends :
      (c : Connection) (x : AnnounceExchange S)
      → IsConnection c
      → Ends i (λ body. Unit) (λ r. IsConnection r.0) c x
  ends c x v =
      let p : (now : ℕ) → IsConnection (polled c now) =
        λ now. record { bounded = prune-IsBounded c.wants now v.bounded; framed = v.framed } in
      let q : (now : ℕ) → IsConnection (refreshed c x now) =
        λ now. record { bounded = (p now).bounded; framed = (p now).framed } in
      record {
        stays = v;
        is_penalised = λ now. penalised-IsConnection c x now v;
        asks = λ offered now. ask_for-IsConnection c x offered now v;
        serves_all = λ wanted. serve_all-IsConnection c x wanted v;
        takes_in = λ body record_ s now b f g k.
            take_in-IsConnection (redeeming c s) x record_ now (record {
              bounded = redeem-IsBounded c.wants (identifier s) v.bounded;
              framed = v.framed;
            });
        offers = λ held now. send_offer-IsConnection c x held now v;
        greets = λ h now.
            send_offer-IsConnection (greeted c x h) (opened c x h) _ now
              (record { bounded = v.bounded; framed = v.framed });
        polls = p;
        polls_offering = λ held now. send_offer-IsConnection (polled c now) x held now (p now);
        refreshes_offering =
            λ held now. send_offer-IsConnection (refreshed c x now) x held now (q now);
        refreshes_asking = λ held now.
            send_offer-IsConnection (send (refreshed c x now) encode_ask) x held now
              (send-IsConnection (refreshed c x now) encode_ask (q now));
      }

  -- Whatever the peer sends, an event leaves a connection in bounds that was: at most 128 wants are
  -- outstanding, none twice, and no frame that was sent is longer than the protocol allows.
  pub event-IsConnection :
      (c : Connection) (x : AnnounceExchange S) (e : Event)
      → IsConnection c
      → IsConnection (event i c x e).0
  event-IsConnection c x e v =
      event-ends i (λ body. Unit) (λ r. IsConnection r.0) c x (ends c x v) e (no_body e)
