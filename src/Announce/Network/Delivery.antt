-- ===== src/Announce/Network/Delivery.antt =====
-- An announce on its way from one session to another: offer, want, record.

use wgrd_mod_manager.Common.{
  ℕ, ◌<◌, ◌≡◌, refl, sym, ap, subst, ◌∙◌, inl, inr, true, false, some, [], ◌∷◌, arith,
  some-injective, length, Bytes, ok, is_ok, ok-injective,
}
use wgrd_mod_manager.Common.Table.{Table, find, insert}
use wgrd_mod_manager.Common.Table.Laws.{find-insert_self, All-find}
use wgrd_mod_manager.Announce.Connection.{
  Connection, send, track_all, ask_for, handle_offer, serve_all, handle_want, take_in,
  handle_record,
}
use wgrd_mod_manager.Announce.Exchange.{
  ensure_budget, IAnnounces, AnnounceExchange, count_offer_received, missing_from, missing, serve,
  receive, ingest,
}
use wgrd_mod_manager.Announce.Wire.{
  record_bytes, encode_offer, encode_want, encode_record, message_of, decode_record,
}
use wgrd_mod_manager.Announce.Wants.{
  maximum_outstanding, OutstandingWantTracker, track, redeem, prune,
}
use wgrd_mod_manager.Announce.Wants.Laws.{
  IsBounded, track-IsBounded, prune-IsBounded, is_pending, redeem_once, track_lem,
}
use wgrd_mod_manager.Announce.Summary.{AnnounceSummary, identifier, IsSummary}
use wgrd_mod_manager.Announce.Codec.{SignedAnnounce, encode_signable, encode, IsAnnounce}
use wgrd_mod_manager.Announce.Codec.RoundTrip.{length-encode, decode-encode}
use wgrd_mod_manager.Announce.Codec.Agreement.{summary_of, record_summary-decode}
use wgrd_mod_manager.Announce.Receiver.{
  SignatureCheck, AnnounceReceiver, identity, accept, would_accept, record_of,
}
use wgrd_mod_manager.Announce.Receiver.Invariant.{IsTrusted, IsGenuine, IsSound}
use wgrd_mod_manager.Announce.Receiver.Offers.{would_accept-accept}
use wgrd_mod_manager.Announce.Receiver.Versions.{accept_ends}
use wgrd_mod_manager.Announce.Wire.RoundTrip.{decode_offer-encode_offer, decode_want-encode_want}
use wgrd_mod_manager.Announce.Budget.{PeerAnnounceBudget, consume}
use wgrd_mod_manager.Announce.Exchange.Serving.{receiver_announces}
use wgrd_mod_manager.Trust.Registry.{RegisteredKey, IKeyRegistry}

pub summary_of-IsSummary : (a : SignedAnnounce) → IsAnnounce a → IsSummary (summary_of a)
summary_of-IsSummary a v = record {
  publisher_length = v.publisher_length;
  name_accepted = v.name_accepted;
  version_lt = v.version_lt;
}

decode_record-encode_record :
    (r : Bytes) → length r ≡ record_bytes → decode_record (encode_record r) ≡ some r
unfolding decode_record encode_record message_of
decode_record-encode_record r h = ground (arith, h)

module _ (registry : IKeyRegistry) (sodium : SignatureCheck) where
  abbrev i : IAnnounces AnnounceReceiver
  i = receiver_announces registry sodium

  -- the peer that misses the announce has room for a want
  abbrev pub HasRoom : Connection → ℕ → Type 0
  HasRoom c now = length (prune c.wants now).pending < maximum_outstanding

  missing_one :
      (x : AnnounceExchange AnnounceReceiver) (s : AnnounceSummary)
      → would_accept registry sodium x.announces s.publisher s.mod_name s.version ≡ true
      → missing i (count_offer_received x) (s ∷ []) ≡ s ∷ []
  unfolding missing missing_from receiver_announces count_offer_received
  missing_one x s h = rw h refl

  ask_for_one :
      (c : Connection) (x : AnnounceExchange AnnounceReceiver) (s : AnnounceSummary) (now : ℕ)
      → would_accept registry sodium x.announces s.publisher s.mod_name s.version ≡ true
      → (track (prune c.wants now) (identifier s) now).0 ≡ true
      → ask_for i c x (s ∷ []) now ≡ (
        send
            (record c { wants = (track (prune c.wants now) (identifier s) now).1 })
            (encode_want (s ∷ [])),
        count_offer_received x,
      )
  unfolding ask_for track_all
  ask_for_one c x s now h t = rw (missing_one x s h, ask_for) (rw t refl)

  -- `HandleOffer_` of an offer of one announce that is wanted: the want of it is sent and outstanding
  offered_one :
      (c : Connection) (x : AnnounceExchange AnnounceReceiver) (a : SignedAnnounce) (now : ℕ)
      → IsAnnounce a
      → IsBounded c.wants
      → HasRoom c now
      → would_accept registry sodium x.announces a.publisher a.mod_name a.version ≡ true
      → (w : OutstandingWantTracker) × IsBounded w
        × (is_pending w (identity a) ≡ true)
        × (handle_offer i c x (encode_offer (summary_of a ∷ [])) now ≡ (
          send (record c { wants = w }) (encode_want (summary_of a ∷ [])),
          count_offer_received x,
        ))
  unfolding handle_offer
  offered_one c x a now v bounded room wanted =
      let s = summary_of a in
      let w = (track (prune c.wants now) (identity a) now).1 in
      let (answer, found, _) = track_lem (prune c.wants now) (identity a) now in
      let tracked : (track (prune c.wants now) (identity a) now).0 ≡ true =
        answer ∙ ground (arith, room) in
      (
        w,
        track-IsBounded (prune c.wants now) (identity a) now (prune-IsBounded c.wants now bounded),
        ground (arith, found, tracked),
        rw (decode_offer-encode_offer (s ∷ []) (summary_of-IsSummary a v, tt), handle_offer)
            (ask_for_one c x s now wanted tracked),
      )

  served_one :
      (c : Connection) (x : AnnounceExchange AnnounceReceiver) (a : SignedAnnounce) (now : ℕ)
      → IsAnnounce a
      → find (identity a) x.announces.retained ≡ some a
      → (handle_want i c x (encode_want (summary_of a ∷ [])) now).0
        ≡ send c (encode_record (encode a))
  unfolding handle_want serve_all serve receiver_announces record_of
  served_one c x a now v h =
      rw (decode_want-encode_want (summary_of a ∷ []) (summary_of-IsSummary a v, tt), handle_want)
        (rw (h, serve_all) refl)

  -- the record is taken in where the budget of the peer allows it
  taken_one :
      (x : AnnounceExchange AnnounceReceiver) (a : SignedAnnounce) (peer : Bytes) (now : ℕ)
      (r : PeerAnnounceBudget × Table PeerAnnounceBudget)
      → ensure_budget x.budgets peer now ≡ some r
      → (consume r.0 now).0 ≡ true
      → (accept registry sodium x.announces (encode a)).0 ≡ ok a
      → ((ingest i x peer (encode a) now).0 ≡ true)
        × ((ingest i x peer (encode a) now).1.announces
            ≡ (accept registry sodium x.announces (encode a)).1)
  unfolding ingest receive receiver_announces
  taken_one x a peer now r e b h = rw (e, ingest) (rw b (rw h (refl, refl)))

  -- `HandleRecord_` of the record that was asked for
  received_one :
      (c : Connection) (x : AnnounceExchange AnnounceReceiver) (a : SignedAnnounce) (now : ℕ)
      (r : PeerAnnounceBudget × Table PeerAnnounceBudget)
      → IsBounded c.wants
      → IsAnnounce a
      → is_pending c.wants (identity a) ≡ true
      → ensure_budget x.budgets c.peer now ≡ some r
      → (consume r.0 now).0 ≡ true
      → (accept registry sodium x.announces (encode a)).0 ≡ ok a
      → ((handle_record i c x (encode_record (encode a)) now).1.announces
          ≡ (accept registry sodium x.announces (encode a)).1)
        × ((handle_record i c x (encode_record (encode a)) now).0.disconnected ≡ c.disconnected)
  unfolding handle_record take_in
  received_one c x a now r w v p e b h =
      let (t, k) = taken_one x a c.peer now r e b h in
      let asked : (redeem c.wants (identity a)).0 ≡ true =
        (redeem_once c.wants (identity a) (identity a) w).0 ∙ p in
      rw (decode_record-encode_record (encode a) (length-encode a v), handle_record)
        (rw (record_summary-decode (encode a) (decode-encode a v)) (rw asked (rw t (k, refl))))

  accepts_one :
      (r : AnnounceReceiver) (a : SignedAnnounce)
      → IsAnnounce a
      → IsTrusted registry sodium a
      → sodium.is_ready ≡ true
      → would_accept registry sodium r a.publisher a.mod_name a.version ≡ true
      → ((accept registry sodium r (encode a)).0 ≡ ok a)
        × (find (identity a) (accept registry sodium r (encode a)).1.retained ≡ some a)
  accepts_one r a v t ready h =
      let fits =
        would_accept-accept registry sodium r (encode a) a (decode-encode a v) ready key_fits in
      elim (accept_ends registry sodium r (encode a)) [
        | inl (b, e, d, k) ↦
            let one : b ≡ a = ok-injective (sym d ∙ decode-encode a v) in
            (
              e ∙ ap ok one,
              ap (λ q. find (identity a) q.retained) k
                  ∙ ap (λ b. find (identity a) (insert (identity b) b r.retained)) one
                  ∙ find-insert_self (identity a) a r.retained,
            )
        | inr (q, e, k) ↦ absurd (refused (sym (ap is_ok e) ∙ fits ∙ h))
      ]
    where
      key_fits :
          (key : RegisteredKey)
          → registry.find_key a.publisher ≡ some key
          → sodium.verifies a.signature (encode_signable a) key.public_key ≡ true
      key_fits key e =
          subst
            (λ (k : RegisteredKey).
              sodium.verifies a.signature (encode_signable a) k.public_key ≡ true)
            (some-injective (sym t.registered ∙ e)) t.verified

      refused : false ≡ true → ⊥
      refused e = cc

  pub retained-IsGenuine :
      (r : AnnounceReceiver) (a : SignedAnnounce)
      → IsSound registry sodium r
      → find (identity a) r.retained ≡ some a
      → IsGenuine registry sodium (identity a, a)
  retained-IsGenuine r a v h =
      All-find (IsGenuine registry sodium) (identity a) r.retained v.genuine h

  send_keeps :
      (c : Connection) (payload : Bytes)
      → ((send c payload).wants ≡ c.wants)
        × ((send c payload).peer ≡ c.peer)
        × ((send c payload).disconnected ≡ c.disconnected)
  unfolding send
  send_keeps c payload = (ground arith, ground arith, ground arith)

  send-wants :
      (c : Connection) (w : OutstandingWantTracker) (payload : Bytes)
      → (send (record c { wants = w }) payload).sent ≡ (send c payload).sent
  unfolding send
  send-wants c w payload = ground arith

  -- the second session after the offer, and after the record
  abbrev pub asked :
      Connection
      → AnnounceExchange AnnounceReceiver
      → SignedAnnounce
      → ℕ
      → Connection × AnnounceExchange AnnounceReceiver
  asked c x a t = handle_offer i c x (encode_offer (summary_of a ∷ [])) t

  abbrev pub told :
      Connection
      → AnnounceExchange AnnounceReceiver
      → SignedAnnounce
      → ℕ
      → ℕ
      → Connection × AnnounceExchange AnnounceReceiver
  told c x a t u = handle_record i (asked c x a t).0 (asked c x a t).1 (encode_record (encode a)) u

  -- The offer, the want and the record, in the words of `send`.
  pub delivery_by_send :
      (ca cb : Connection) (xa xb : AnnounceExchange AnnounceReceiver) (a : SignedAnnounce)
      (t1 t2 t3 : ℕ) (r : PeerAnnounceBudget × Table PeerAnnounceBudget)
      → IsSound registry sodium xa.announces
      → find (identity a) xa.announces.retained ≡ some a
      → sodium.is_ready ≡ true
      → IsBounded cb.wants
      → HasRoom cb t1
      → would_accept registry sodium xb.announces a.publisher a.mod_name a.version ≡ true
      → ensure_budget xb.budgets cb.peer t3 ≡ some r
      → (consume r.0 t3).0 ≡ true
      → ((asked cb xb a t1).0.sent ≡ (send cb (encode_want (summary_of a ∷ []))).sent)
        × ((handle_want i ca xa (encode_want (summary_of a ∷ [])) t2).0
            ≡ send ca (encode_record (encode a)))
        × (find (identity a) (told cb xb a t1 t3).1.announces.retained ≡ some a)
        × ((told cb xb a t1 t3).0.disconnected ≡ cb.disconnected)
  unfolding count_offer_received
  delivery_by_send ca cb xa xb a t1 t2 t3 r sound held ready bounded room wanted budget allowed =
      let g = retained-IsGenuine xa.announces a sound held in
      let (w, is_bounded, pending, e) = offered_one cb xb a t1 g.well_formed bounded room wanted in
      let after = record cb { wants = w } in
      let want_ = encode_want (summary_of a ∷ []) in
      let (kept, peer, connected) = send_keeps after want_ in
      let (taken, found) = accepts_one xb.announces a g.well_formed g.trusted ready wanted in
      let (k, d) =
        received_one (send after want_) (count_offer_received xb) a t3 r
          (subst IsBounded (sym kept) is_bounded) g.well_formed
          (ap (λ v. is_pending v (identity a)) kept ∙ pending)
          (ap (λ q. ensure_budget xb.budgets q t3) peer ∙ budget) allowed taken in
      (
        ap (λ q. q.0.sent) e ∙ send-wants cb w want_,
        served_one ca xa a t2 g.well_formed held,
        rw e (rw k found),
        rw e (d ∙ connected),
      )
