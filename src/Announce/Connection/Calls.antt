-- ===== src/Announce/Connection/Calls.antt =====
-- Each event of a connection is, to the exchange, a run of its methods.
use wgrd_mod_manager.Common.{
  ℕ, ◌≡◌, refl, ap, subst, ◌∙◌, inl, inr, not, ◌&&◌, some, List, [], ◌∷◌, ◌++◌, arith, ltb, leb,
  Bool-cases, Option-cases, some-injective, All, All-append, All-drop, Bytes, AreBytes,
}
use wgrd_mod_manager.Announce.Connection.Cases.{
  Event, event, OfBody, redeeming, opened, greeted, polled, refreshed, Ends, event-ends,
}
use wgrd_mod_manager.Announce.Connection.{
  Connection, Handshake, send, penalise_and_disconnect, send_offer, ask_for, serve_all, take_in,
}
use wgrd_mod_manager.Announce.Exchange.{
  IAnnounces, AnnounceExchange, peer_blocked, count_offer_received, serve, ingest,
}
use wgrd_mod_manager.Announce.Exchange.Counts.{
  Call, ingests, penalises, serves, opens, sends_offer, receives_offer, notes, step, run,
}
use wgrd_mod_manager.Announce.Wire.{header_bytes, encode_record, encode_ask, decode_record}
use wgrd_mod_manager.Announce.Summary.{AnnounceSummary}
use wgrd_mod_manager.Announce.Exchange.Serving.{IsReadable}

module _ {S : Type 0} (i : IAnnounces S) where
  -- The exchange `y` comes from `x` by calls of its methods that take in octets alone.
  pub record Reaches (x y : AnnounceExchange S) : Type 0 where
    pub calls : List Call
    pub readable : All IsReadable calls
    pub arrives : run i x calls ≡ y

  pub Reaches-nil : (x : AnnounceExchange S) → Reaches x x
  unfolding run
  Reaches-nil x = record { calls = []; readable = tt; arrives = refl }

  pub Reaches-one : (x : AnnounceExchange S) (c : Call) → IsReadable c → Reaches x (step i x c)
  unfolding run
  Reaches-one x c h = record { calls = c ∷ []; readable = (h, tt); arrives = refl }

  run-append :
      (x : AnnounceExchange S) (as_ bs : List Call) → run i x (as_ ++ bs) ≡ run i (run i x as_) bs
  unfolding run
  run-append x [] bs = refl
  run-append x (a ∷ as_) bs = run-append (step i x a) as_ bs

  Reaches-trans : (x y z : AnnounceExchange S) → Reaches x y → Reaches y z → Reaches x z
  Reaches-trans x y z r s = record {
    calls = r.calls ++ s.calls;
    readable = All-append IsReadable r.calls s.calls r.readable s.readable;
    arrives = run-append x r.calls s.calls ∙ ap (λ w. run i w s.calls) r.arrives ∙ s.arrives;
  }

  Reaches-penalise :
      (c : Connection) (x : AnnounceExchange S) (now : ℕ)
      → Reaches x (penalise_and_disconnect c x now).1
  unfolding penalise_and_disconnect step
  Reaches-penalise c x now = Reaches-one x (penalises c.peer now) tt

  Reaches-send_offer :
      (c : Connection) (x : AnnounceExchange S) (held : List AnnounceSummary) (now : ℕ)
      → Reaches x (send_offer c x held now).1
  unfolding send_offer step
  Reaches-send_offer c x held now = Reaches-one x sends_offer tt

  Reaches-opened :
      (c : Connection) (x : AnnounceExchange S) (h : Handshake) → Reaches x (opened c x h)
  unfolding step run
  Reaches-opened c x h = elim (Bool-cases (ltb 0 h.port && leb h.port 65535)) [
    | inl e ↦ rw e (record {
      calls = notes c.peer h.port ∷ opens ∷ [];
      readable = (tt, (tt, tt));
      arrives = refl;
    })
    | inr e ↦ rw e (record { calls = opens ∷ []; readable = (tt, tt); arrives = refl })
  ]

  -- `HandleOffer_` behind the decoding
  Reaches-counted :
      (c : Connection) (x : AnnounceExchange S) (offered : List AnnounceSummary) (now : ℕ)
      → Reaches x (ask_for i c x offered now).1
  unfolding ask_for step run
  Reaches-counted c x offered now =
      let kept : (ask_for i c x offered now).1 ≡ count_offer_received x = ground arith in
      rw kept (Reaches-one x receives_offer tt)

  Reaches-serve_all :
      (c : Connection) (x : AnnounceExchange S) (wanted : List AnnounceSummary)
      → Reaches x (serve_all i c x wanted).1
  unfolding serve_all step
  Reaches-serve_all c x [] = Reaches-nil x
  Reaches-serve_all c x (s ∷ wanted) =
      let r = Reaches-one x (serves s) tt in
      let y = (serve i x s).1 in
      elim (Option-cases (serve i x s).0) [
        | inl e ↦ rw (e, serve_all) (Reaches-trans x y _ r (Reaches-serve_all c y wanted))
        | inr (b, e) ↦
            rw (e, serve_all)
              (Reaches-trans x y _ r (Reaches-serve_all (send c (encode_record b)) y wanted))
      ]

  Reaches-take_in :
      (c : Connection) (x : AnnounceExchange S) (record_ : Bytes) (now : ℕ)
      → AreBytes record_
      → Reaches x (take_in i c x record_ now).1
  unfolding take_in step
  Reaches-take_in c x record_ now b =
      let (taken, x') = ingest i x c.peer record_ now in
      elim (Bool-cases (not taken && peer_blocked x' c.peer now)) [
        | inl e ↦ rw (e, take_in) (Reaches-one x (ingests c.peer record_ now) b)
        | inr e ↦ rw (e, take_in) (Reaches-one x (ingests c.peer record_ now) b)
      ]

  decode_record-octets :
      (body : Bytes) {record_ : Bytes}
      → AreBytes body
      → decode_record body ≡ some record_
      → AreBytes record_
  unfolding decode_record
  decode_record-octets body {record_} b h =
      subst AreBytes (some-injective (ground (arith, h))) (All-drop _ header_bytes body b)

  ends : (c : Connection) (x : AnnounceExchange S) → Ends i AreBytes (λ r. Reaches x r.1) c x
  ends c x = record {
    stays = Reaches-nil x;
    is_penalised = Reaches-penalise c x;
    asks = Reaches-counted c x;
    serves_all = Reaches-serve_all c x;
    takes_in = λ body record_ s now b f g k.
        Reaches-take_in (redeeming c s) x record_ now (decode_record-octets body b f);
    offers = Reaches-send_offer c x;
    greets = λ h now.
        Reaches-trans x (opened c x h) _ (Reaches-opened c x h)
          (Reaches-send_offer (greeted c x h) (opened c x h) _ now);
    polls = λ now. Reaches-nil x;
    polls_offering = λ held now. Reaches-send_offer (polled c now) x held now;
    refreshes_offering = λ held now. Reaches-send_offer (refreshed c x now) x held now;
    refreshes_asking =
        λ held now. Reaches-send_offer (send (refreshed c x now) encode_ask) x held now;
  }

  -- Each event of a connection, whatever octets come with it, does to the exchange what some
  -- sequence of calls of the exchange's methods does, so that what these keep every event keeps.
  pub event-Reaches :
      (c : Connection) (x : AnnounceExchange S) (e : Event)
      → OfBody AreBytes e
      → Reaches x (event i c x e).1
  event-Reaches c x e b = event-ends i AreBytes (λ r. Reaches x r.1) c x (ends c x) e b
