-- ===== src/Announce/Receiver/Invariant.antt =====
-- Everything retained has been verified, under the identifier that it stands for.

use wgrd_mod_manager.Common.Table.Laws.{
  insert-Ascends, length-insert-le, length-insert_present, All-insert,
}
use wgrd_mod_manager.Announce.Codec.RoundTrip.{decode-IsAnnounce}
use wgrd_mod_manager.Common.{
  ◌≤◌, ◌≡◌, refl, sym, ap, ◌∙◌, inl, inr, true, false, some, arith, Option-cases, length, All,
  Bytes, AreBytes, ok, bind-eq-ok, Result-cases, ok-injective,
}
use wgrd_mod_manager.Common.Table.{Table, insert, Ascends}
use wgrd_mod_manager.Trust.Registry.{RegisteredKey, IKeyRegistry}
use wgrd_mod_manager.Announce.Codec.{SignedAnnounce, encode_signable, decode, IsAnnounce}
use wgrd_mod_manager.Announce.Receiver.{
  SignatureCheck, maximum_retained, AnnounceReceiver, identity, check_newer, decoded,
  check_signature, judge, accept,
}

decoded-eq_ok :
    (record_ : Bytes) {a : SignedAnnounce} → decoded record_ ≡ ok a → decode record_ ≡ ok a
decoded-eq_ok record_ e = ground arith

module _ (registry : IKeyRegistry) (sodium : SignatureCheck) where
  -- The publisher's key is registered and not revoked, and the signature fits it.
  pub record IsTrusted (a : SignedAnnounce) : Type 0 where
    pub key : RegisteredKey
    pub registered : registry.find_key a.publisher ≡ some key
    pub unrevoked : key.revoked ≡ false
    pub verified : sodium.verifies a.signature (encode_signable a) key.public_key ≡ true

  pub record IsGenuine (entry : Bytes × SignedAnnounce) : Type 0 where
    pub under_identity : entry.0 ≡ identity entry.1
    pub well_formed : IsAnnounce entry.1
    pub trusted : IsTrusted entry.1

  pub record IsSound (r : AnnounceReceiver) : Type 0 where
    pub ascends : Ascends r.retained
    pub size_max : length r.retained ≤ maximum_retained
    pub genuine : All IsGenuine r.retained

  -- What `judge` has checked when it lets a record through.
  pub record Passes (retained : Table SignedAnnounce) (record_ : Bytes) (a : SignedAnnounce)
      : Type 0 where
    pub reads : decode record_ ≡ ok a
    pub signed : check_signature registry sodium a ≡ ok tt
    pub newer : check_newer retained a ≡ ok tt

  pub judge-Passes :
      (retained : Table SignedAnnounce) (record_ : Bytes) {a : SignedAnnounce}
      → judge registry sodium retained record_ ≡ ok a
      → Passes retained record_ a
  unfolding judge
  judge-Passes retained record_ {a} e =
      let (d, hd, e1) = bind-eq-ok (decoded record_) _ e in
      let (_, hs, e2) = bind-eq-ok (check_signature registry sodium d) _ e1 in
      let (_, hn, e3) = bind-eq-ok (check_newer retained d) _ e2 in
      let same_one = ok-injective e3 in
      record {
        reads = decoded-eq_ok record_ hd ∙ ap ok same_one;
        signed = ap (check_signature registry sodium) (sym same_one) ∙ hs;
        newer = ap (check_newer retained) (sym same_one) ∙ hn;
      }

  pub check_signature-IsTrusted :
      (a : SignedAnnounce) → check_signature registry sodium a ≡ ok tt → IsTrusted a
  unfolding check_signature
  check_signature-IsTrusted a e = elim (Option-cases (registry.find_key a.publisher)) [
    | inl h ↦ absurd (ground arith)
    | inr (key, h) ↦ record {
      key = key;
      registered = h;
      unrevoked = ground arith;
      verified = ground arith;
    }
  ]

  check_newer-size :
      (m : Table SignedAnnounce) (a : SignedAnnounce)
      → Ascends m
      → length m ≤ maximum_retained
      → check_newer m a ≡ ok tt
      → length (insert (identity a) a m) ≤ maximum_retained
  unfolding check_newer
  check_newer-size m a s l e =
      ground (arith, length-insert-le (identity a) a m, length-insert_present (identity a) a m s)

  -- Whatever octets arrive at a sound receiver, it stays sound: every announce that is retained has
  -- a publisher's key that is registered and not revoked and a signature that fits, stands under
  -- its own identifier, and there are at most 4096 of them.
  pub accept-IsSound :
      (r : AnnounceReceiver) (record_ : Bytes)
      → AreBytes record_
      → IsSound r
      → IsSound (accept registry sodium r record_).1
  unfolding accept
  accept-IsSound r record_ b v = elim (Result-cases (judge registry sodium r.retained record_)) [
    | inl (a, h) ↦
        let p = judge-Passes r.retained record_ h in
        let genuine : IsGenuine (identity a, a) = record {
          under_identity = refl;
          well_formed = decode-IsAnnounce record_ b p.reads;
          trusted = check_signature-IsTrusted a p.signed;
        } in
        rw (h, accept)
          (record {
            ascends = insert-Ascends (identity a) a r.retained v.ascends;
            size_max = check_newer-size r.retained a v.ascends v.size_max p.newer;
            genuine = All-insert IsGenuine (identity a) a r.retained genuine v.genuine;
          })
    | inr (x, h) ↦
        rw (h, accept) (record { ascends = v.ascends; size_max = v.size_max; genuine = v.genuine })
  ]
