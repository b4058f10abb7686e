-- ===== src/Announce/Network/Frames.antt =====
-- The frames of an announce on its way from one session to another.
use wgrd_mod_manager.Trust.Registry.{IKeyRegistry}
use wgrd_mod_manager.Announce.Network.Delivery.{
  HasRoom, retained-IsGenuine, asked, told, delivery_by_send,
}
use wgrd_mod_manager.Announce.Budget.{PeerAnnounceBudget, consume}
use wgrd_mod_manager.Announce.Receiver.Invariant.{IsSound}
use wgrd_mod_manager.Announce.Receiver.{SignatureCheck, AnnounceReceiver, identity, would_accept}
use wgrd_mod_manager.Announce.Codec.Agreement.{summary_of}
use wgrd_mod_manager.Announce.Codec.RoundTrip.{length-encode}
use wgrd_mod_manager.Announce.Codec.{SignedAnnounce, encode, IsAnnounce}
use wgrd_mod_manager.Announce.Summary.Fields.{length-pad_mod_name}
use wgrd_mod_manager.Announce.Summary.{AnnounceSummary, pad_mod_name}
use wgrd_mod_manager.Announce.Wants.Laws.{IsBounded}
use wgrd_mod_manager.Announce.Wire.{
  record_bytes, encode_entry, encode_entries, encode_want, encode_record,
}
use wgrd_mod_manager.Announce.Exchange.Serving.{receiver_announces}
use wgrd_mod_manager.Announce.Exchange.{ensure_budget, AnnounceExchange}
use wgrd_mod_manager.Announce.Connection.{Connection, frame_of, send, handle_want}
use wgrd_mod_manager.Common.Table.{Table, find}
use wgrd_mod_manager.Common.{
  ℕ, ◌+◌, ◌/◌, ◌%◌, ◌^◌, ◌≤◌, ◌<◌, ◌≡◌, ap, ap₂, ◌∙◌, true, some, [], ◌∷◌, ◌++◌, append-nil, arith,
  length, length-append, Bytes,
}

-- After the handshake, a message that is neither empty nor too large is sent as one frame.
send_frame :
    (c : Connection) (payload : Bytes)
    → 1 ≤ c.remote_message_id
    → 1 ≤ length payload
    → length payload ≤ 8192
    → (send c payload).sent ≡ c.sent ++ frame_of c.remote_message_id payload ∷ []
unfolding send
send_frame c payload h l m = ground (arith, h, l, m)

-- the frame of the want of one announce, octet by octet up to its fields
abbrev pub want_frame : ℕ → SignedAnnounce → Bytes
want_frame id a = 0 ∷ 0 ∷ 0 ∷ 77 ∷ 20 ∷ id ∷ 2 ∷ 1 ∷ 0 ∷ (a.publisher ++ pad_mod_name a.mod_name)

-- the frame of a record
abbrev pub record_frame : ℕ → SignedAnnounce → Bytes
record_frame id a = 0 ∷ 0 ∷ 0 ∷ 223 ∷ 20 ∷ id ∷ 3 ∷ encode a

encode_want_one :
    (s : AnnounceSummary)
    → encode_want (s ∷ []) ≡ 2 ∷ 1 ∷ 0 ∷ (s.publisher ++ pad_mod_name s.mod_name)
unfolding encode_want encode_entries encode_entry
encode_want_one s =
    ap (λ xs. 2 ∷ 1 ∷ 0 ∷ xs)
      (append-nil (s.publisher ++ (pad_mod_name s.mod_name ++ []))
        ∙ ap (◌++◌ s.publisher) (append-nil (pad_mod_name s.mod_name)))

encode_record_one : (r : Bytes) → length r ≡ record_bytes → encode_record r ≡ 3 ∷ r
unfolding encode_record
encode_record_one r h = ground (arith, h)

frame_of_short :
    (id : ℕ) (payload : Bytes)
    → length payload < 254
    → frame_of id payload ≡ 0 ∷ 0 ∷ 0 ∷ (2 + length payload) ∷ 20 ∷ id ∷ payload
unfolding frame_of
frame_of_short id payload h =
    let n0 : (2 + length payload) / 2 ^ 24 % 256 ≡ 0 = omega (arith, h) in
    let n1 : (2 + length payload) / 2 ^ 16 % 256 ≡ 0 = omega (arith, h) in
    let n2 : (2 + length payload) / 2 ^ 8 % 256 ≡ 0 = omega (arith, h) in
    let n3 : (2 + length payload) % 256 ≡ 2 + length payload = omega (arith, h) in
    λ i. n0 i ∷ n1 i ∷ n2 i ∷ n3 i ∷ 20 ∷ id ∷ payload

length-want : (a : SignedAnnounce) → IsAnnounce a → length (encode_want (summary_of a ∷ [])) ≡ 75
length-want a v =
    ap length (encode_want_one (summary_of a))
    ∙ omega (
      arith,
      v.publisher_length,
      length-append a.publisher (pad_mod_name a.mod_name),
      length-pad_mod_name a.mod_name,
    )

length-record : (a : SignedAnnounce) → IsAnnounce a → length (encode_record (encode a)) ≡ 221
length-record a v =
    ap length (encode_record_one (encode a) (length-encode a v)) ∙ omega (arith, length-encode a v)

want-frame :
    (id : ℕ) (a : SignedAnnounce)
    → IsAnnounce a
    → frame_of id (encode_want (summary_of a ∷ [])) ≡ want_frame id a
want-frame id a v =
    frame_of_short id (encode_want (summary_of a ∷ [])) (omega (arith, length-want a v))
    ∙ ap₂ (λ (n : ℕ) (xs : Bytes). 0 ∷ 0 ∷ 0 ∷ (2 + n) ∷ 20 ∷ id ∷ xs) (length-want a v)
        (encode_want_one (summary_of a))

record-frame :
    (id : ℕ) (a : SignedAnnounce)
    → IsAnnounce a
    → frame_of id (encode_record (encode a)) ≡ record_frame id a
record-frame id a v =
    frame_of_short id (encode_record (encode a)) (omega (arith, length-record a v))
    ∙ ap₂ (λ (n : ℕ) (xs : Bytes). 0 ∷ 0 ∷ 0 ∷ (2 + n) ∷ 20 ∷ id ∷ xs) (length-record a v)
        (encode_record_one (encode a) (length-encode a v))

module _ (registry : IKeyRegistry) (sodium : SignatureCheck) where
  -- Two sessions with one registry, each of which has the other's handshake: where the first retains
  -- an announce that the second would take, and the second has room for a want and a budget for the
  -- first, the offer of the announce makes the second send one frame, the want of it; the want makes
  -- the first send one frame, the record; and on the record the second retains the announce and stays
  -- connected.
  pub delivery :
      (ca cb : Connection) (xa xb : AnnounceExchange AnnounceReceiver) (a : SignedAnnounce)
      (t1 t2 t3 : ℕ) (r : PeerAnnounceBudget × Table PeerAnnounceBudget)
      → 1 ≤ ca.remote_message_id
      → 1 ≤ cb.remote_message_id
      → IsSound registry sodium xa.announces
      → find (identity a) xa.announces.retained ≡ some a
      → sodium.is_ready ≡ true
      → IsBounded cb.wants
      → HasRoom registry sodium cb t1
      → would_accept registry sodium xb.announces a.publisher a.mod_name a.version ≡ true
      → ensure_budget xb.budgets cb.peer t3 ≡ some r
      → (consume r.0 t3).0 ≡ true
      → ((asked registry sodium cb xb a t1).0.sent
          ≡ cb.sent ++ want_frame cb.remote_message_id a ∷ [])
        × ((handle_want
              (receiver_announces registry sodium)
              ca
              xa
              (encode_want (summary_of a ∷ []))
              t2).0.sent
            ≡ ca.sent ++ record_frame ca.remote_message_id a ∷ [])
        × (find (identity a) (told registry sodium cb xb a t1 t3).1.announces.retained ≡ some a)
        × ((told registry sodium cb xb a t1 t3).0.disconnected ≡ cb.disconnected)
  delivery ca cb xa xb a t1 t2 t3 r ready_a ready_b sound held ready bounded room wanted budget
        allowed =
      let v = (retained-IsGenuine registry sodium xa.announces a sound held).well_formed in
      let (want_, record_, kept, connected) =
        delivery_by_send registry sodium ca cb xa xb a t1 t2 t3 r sound held ready bounded room
          wanted budget allowed in
      (
        want_
            ∙ send_frame cb (encode_want (summary_of a ∷ [])) ready_b
                (omega (arith, length-want a v)) (omega (arith, length-want a v))
            ∙ ap (λ f. cb.sent ++ f ∷ []) (want-frame cb.remote_message_id a v),
        ap (λ (c : Connection). c.sent) record_
            ∙ send_frame ca (encode_record (encode a)) ready_a (omega (arith, length-record a v))
                (omega (arith, length-record a v))
            ∙ ap (λ f. ca.sent ++ f ∷ []) (record-frame ca.remote_message_id a v),
        kept,
        connected,
      )
