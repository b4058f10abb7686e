-- ===== src/Announce/Receiver/Offers.antt =====
-- What the receiver says it would take, and what it hands out.
use wgrd_mod_manager.Announce.Codec.RoundTrip.{decode-encode}
use wgrd_mod_manager.Common.{
  ◌≡◌, sym, ap, ◌∙◌, inl, inr, true, ◌&&◌, some, arith, Option-cases, length, Bytes, AreBytes, ok,
  is_ok,
}
use wgrd_mod_manager.Common.Table.{Table, find}
use wgrd_mod_manager.Common.Table.Laws.{All-find}
use wgrd_mod_manager.Trust.Registry.{RegisteredKey, IKeyRegistry}
use wgrd_mod_manager.Announce.Summary.{fingerprint_bytes, identifier_of}
use wgrd_mod_manager.Announce.Summary.Fields.{identifier_of-injective}
use wgrd_mod_manager.Announce.Codec.{SignedAnnounce, encode_signable, encode, decode, IsAnnounce}
use wgrd_mod_manager.Announce.Receiver.{
  SignatureCheck, AnnounceReceiver, check_newer, check_signature, judge, accept, would_accept,
  record_of,
}
use wgrd_mod_manager.Announce.Receiver.Invariant.{IsTrusted, IsGenuine, IsSound}

module _ (registry : IKeyRegistry) (sodium : SignatureCheck) where
  check_signature-usable :
      (a : SignedAnnounce)
      → ((key : RegisteredKey)
          → registry.find_key a.publisher ≡ some key
          → sodium.verifies a.signature (encode_signable a) key.public_key ≡ true)
      → sodium.is_ready ≡ true
      → is_ok (check_signature registry sodium a) ≡ registry.is_usable a.publisher
  unfolding check_signature
  check_signature-usable a h ready = elim (Option-cases (registry.find_key a.publisher)) [
    | inl e ↦ ground (arith, registry.usable_is_unrevoked a.publisher)
    | inr (key, e) ↦ ground (arith, registry.usable_is_unrevoked a.publisher, h key e)
  ]

  is_ok-judge :
      (m : Table SignedAnnounce) (record_ : Bytes) (a : SignedAnnounce)
      → decode record_ ≡ ok a
      → is_ok (judge registry sodium m record_)
        ≡ (is_ok (check_signature registry sodium a) && is_ok (check_newer m a))
  unfolding judge
  is_ok-judge m record_ a d = ground arith

  is_ok-accept :
      (r : AnnounceReceiver) (record_ : Bytes)
      → is_ok (accept registry sodium r record_).0
        ≡ is_ok (judge registry sodium r.retained record_)
  unfolding accept
  is_ok-accept r record_ = ground arith

  would_accept_lem :
      (r : AnnounceReceiver) (a : SignedAnnounce)
      → would_accept registry sodium r a.publisher a.mod_name a.version
        ≡ (registry.is_usable a.publisher && is_ok (check_newer r.retained a))
  unfolding would_accept check_newer
  would_accept_lem r a = ground arith

  -- Of a record that decodes and is signed by the key of its publisher, `WouldAccept` says exactly
  -- whether `Accept` takes it, provided that libsodium is ready.
  pub would_accept-accept :
      (r : AnnounceReceiver) (record_ : Bytes) (a : SignedAnnounce)
      → decode record_ ≡ ok a
      → sodium.is_ready ≡ true
      → ((key : RegisteredKey)
          → registry.find_key a.publisher ≡ some key
          → sodium.verifies a.signature (encode_signable a) key.public_key ≡ true)
      → is_ok (accept registry sodium r record_).0
        ≡ would_accept registry sodium r a.publisher a.mod_name a.version
  would_accept-accept r record_ a d ready h =
      is_ok-accept r record_
      ∙ is_ok-judge r.retained record_ a d
      ∙ ap (λ b. b && is_ok (check_newer r.retained a)) (check_signature-usable a h ready)
      ∙ sym (would_accept_lem r a)

  decode-served :
      (a : SignedAnnounce) {served : Bytes}
      → IsAnnounce a
      → encode a ≡ served
      → decode served ≡ ok a
  decode-served a w e = rw (← e) (decode-encode a w)

  -- What a sound receiver serves for a publisher of eight octets and a name decodes to an announce
  -- of just these, with a signature that fits a registered key that is not revoked.
  record_of-decode :
      (r : AnnounceReceiver) (publisher mod_name : Bytes) {served : Bytes}
      → IsSound registry sodium r
      → length publisher ≡ fingerprint_bytes
      → AreBytes publisher
      → record_of r publisher mod_name ≡ some served
      → (a : SignedAnnounce) × (decode served ≡ ok a)
        × (a.publisher ≡ publisher)
        × (a.mod_name ≡ mod_name)
        × IsTrusted registry sodium a
  unfolding record_of
  record_of-decode r publisher mod_name v l b e =
      elim (Option-cases (find (identifier_of publisher mod_name) r.retained)) [
        | inl h ↦ absurd (ground arith)
        | inr (a, h) ↦
            let g =
              All-find (IsGenuine registry sodium) (identifier_of publisher mod_name) r.retained
                v.genuine h in
            let w = g.well_formed in
            let same_fields =
              identifier_of-injective a.publisher publisher a.mod_name mod_name w.publisher_length l
                w.publisher_bytes b (sym g.under_identity) in
            (a, decode-served a w (ground arith), same_fields.0, same_fields.1, g.trusted)
      ]
