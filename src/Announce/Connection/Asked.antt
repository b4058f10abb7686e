-- ===== src/Announce/Connection/Asked.antt =====
-- What is retained changes only by records that were asked for.
use wgrd_mod_manager.Common.{
  ℕ, ◌≡◌, refl, sym, ap, ◌∙◌, ◌⊎◌, inl, inr, true, false, not, ◌&&◌, some, List, [], ◌∷◌, arith,
  if◌then◌else◌, Bool-cases, Option-cases, Bytes, same_refl,
}
use wgrd_mod_manager.Announce.Connection.Cases.{
  Event, event, no_body, redeeming, opened, Ends, event-ends,
}
use wgrd_mod_manager.Announce.Connection.{
  Connection, Handshake, send, penalise_and_disconnect, send_offer, ask_for, serve_all, take_in,
}
use wgrd_mod_manager.Announce.Exchange.{
  IAnnounces, AnnounceExchange, peer_blocked, penalise_peer, peer_opened, count_offer_sent,
  count_offer_received, note_peer, serve, receive, ingest,
}
use wgrd_mod_manager.Announce.Wire.{encode_record, record_summary}
use wgrd_mod_manager.Announce.Wants.{OutstandingWantTracker, redeem}
use wgrd_mod_manager.Announce.Wants.Laws.{IsBounded, is_pending, redeem_once}
use wgrd_mod_manager.Announce.Summary.{AnnounceSummary, identifier}

module _ {S : Type 0} (i : IAnnounces S) where
  -- What an event may do to what is retained: nothing, or it takes in one record, the identifier of
  -- which was outstanding at this connection before and is not any more.
  pub data Takes (c : Connection) (x : AnnounceExchange S) (r : Connection × AnnounceExchange S)
      : Type 0 where
    keeps : r.1.announces ≡ x.announces → Takes c x r
    takes :
        (record_ : Bytes) (s : AnnounceSummary)
        → record_summary record_ ≡ some s
        → is_pending c.wants (identifier s) ≡ true
        → is_pending r.0.wants (identifier s) ≡ false
        → r.1.announces ≡ (i.take_record x.announces record_).1
        → Takes c x r

  penalise_peer-announces :
      (x : AnnounceExchange S) (peer : Bytes) (now : ℕ)
      → (penalise_peer x peer now).announces ≡ x.announces
  unfolding penalise_peer
  penalise_peer-announces x peer now = ground arith

  serve-announces :
      (x : AnnounceExchange S) (s : AnnounceSummary) → (serve i x s).1.announces ≡ x.announces
  unfolding serve
  serve-announces x s = ground arith

  note_peer-announces :
      (x : AnnounceExchange S) (address : Bytes) (port : ℕ)
      → (note_peer x address port).announces ≡ x.announces
  unfolding note_peer
  note_peer-announces x address port = ground arith

  ingest-announces :
      (x : AnnounceExchange S) (peer record_ : Bytes) (now : ℕ)
      → ((ingest i x peer record_ now).1.announces ≡ x.announces)
        ⊎ ((ingest i x peer record_ now).1.announces ≡ (i.take_record x.announces record_).1)
  unfolding ingest receive
  ingest-announces x peer record_ now = ground arith

  serve_all-announces :
      (c : Connection) (x : AnnounceExchange S) (wanted : List AnnounceSummary)
      → (serve_all i c x wanted).1.announces ≡ x.announces
  unfolding serve_all
  serve_all-announces c x [] = refl
  serve_all-announces c x (s ∷ wanted) =
      let y = (serve i x s).1 in
      elim (Option-cases (serve i x s).0) [
        | inl e ↦ rw (e, serve_all) (serve_all-announces c y wanted ∙ serve-announces x s)
        | inr (b, e) ↦
            rw (e, serve_all)
              (serve_all-announces (send c (encode_record b)) y wanted ∙ serve-announces x s)
      ]

  ask_for-announces :
      (c : Connection) (x : AnnounceExchange S) (offered : List AnnounceSummary) (now : ℕ)
      → (ask_for i c x offered now).1.announces ≡ x.announces
  unfolding ask_for count_offer_received
  ask_for-announces c x offered now = ground arith

  take_in-parts :
      (c : Connection) (x : AnnounceExchange S) (record_ : Bytes) (now : ℕ)
      → ((take_in i c x record_ now).0.wants ≡ c.wants)
        × ((take_in i c x record_ now).1 ≡ (ingest i x c.peer record_ now).1)
  unfolding take_in
  take_in-parts c x record_ now =
      let (taken, x') = ingest i x c.peer record_ now in
      elim (Bool-cases (not taken && peer_blocked x' c.peer now)) [
        | inl e ↦ rw (e, take_in) (refl, refl)
        | inr e ↦ rw (e, take_in) (refl, refl)
      ]

  redeemed :
      (w : OutstandingWantTracker) (k : Bytes) → IsBounded w → is_pending (redeem w k).1 k ≡ false
  redeemed w k v =
      let (_, _, h) = redeem_once w k k v in
      h ∙ ap (λ b. if b then false else is_pending w k) (same_refl k)

  take_in-Takes :
      (c : Connection) (x : AnnounceExchange S) (record_ : Bytes) (now : ℕ) (s : AnnounceSummary)
      → IsBounded c.wants
      → record_summary record_ ≡ some s
      → is_pending c.wants (identifier s) ≡ true
      → Takes c x (take_in i (redeeming c s) x record_ now)
  take_in-Takes c x record_ now s v f p =
      let (w, y) = take_in-parts (redeeming c s) x record_ now in
      elim (ingest-announces x c.peer record_ now) [
        | inl k ↦ keeps (ap (λ z. z.announces) y ∙ k)
        | inr t ↦
            takes record_ s f p
              (ap (λ u. is_pending u (identifier s)) w ∙ redeemed c.wants (identifier s) v)
              (ap (λ z. z.announces) y ∙ t)
      ]

  penalised-Takes :
      (c : Connection) (x : AnnounceExchange S) (now : ℕ)
      → Takes c x (penalise_and_disconnect c x now)
  unfolding penalise_and_disconnect
  penalised-Takes c x now = keeps (penalise_peer-announces x c.peer now)

  opened-announces :
      (c : Connection) (x : AnnounceExchange S) (h : Handshake)
      → (opened c x h).announces ≡ x.announces
  unfolding peer_opened
  opened-announces c x h = ground (arith, note_peer-announces x c.peer h.port)

  ends :
      (c : Connection) (x : AnnounceExchange S)
      → IsBounded c.wants
      → Ends i (λ body. Unit) (Takes c x) c x
  unfolding send_offer count_offer_sent
  ends c x v = record {
    stays = keeps refl;
    is_penalised = penalised-Takes c x;
    asks = λ offered now. keeps (ask_for-announces c x offered now);
    serves_all = λ wanted. keeps (serve_all-announces c x wanted);
    takes_in = λ body record_ s now b f g k.
        take_in-Takes c x record_ now s v g
          (sym (redeem_once c.wants (identifier s) (identifier s) v).0 ∙ k);
    offers = λ held now. keeps refl;
    greets = λ h now. keeps (opened-announces c x h);
    polls = λ now. keeps refl;
    polls_offering = λ held now. keeps refl;
    refreshes_offering = λ held now. keeps refl;
    refreshes_asking = λ held now. keeps refl;
  }

  -- At a connection with its wants in bounds, whatever the peer sends, an event changes what is
  -- retained at most by taking in one record, the identifier of which this connection had asked
  -- for; that want is redeemed, so that the same record does not get in a second time.
  pub event-Takes :
      (c : Connection) (x : AnnounceExchange S) (e : Event)
      → IsBounded c.wants
      → Takes c x (event i c x e)
  event-Takes c x e v = event-ends i (λ body. Unit) (Takes c x) c x (ends c x v) e (no_body e)
