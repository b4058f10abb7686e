-- ===== src/Announce/Receiver/Versions.antt =====
-- Which announces replace others: the newest version of each release is kept.

use wgrd_mod_manager.Common.Table.Laws.{find-insert, find-insert_self}
use wgrd_mod_manager.Common.{
  ◌+◌, ◌%◌, ◌^◌, ◌≤◌, ◌<◌, ◌≡◌, sym, ap, ◌∙◌, ◌⊎◌, inl, inr, Option, none, some, arith, Bool-cases,
  Option-cases, Bytes, same, same_iff, Result, ok, err, Result-cases, ok-injective,
}
use wgrd_mod_manager.Common.Table.{Table, find, insert}
use wgrd_mod_manager.Trust.Registry.{IKeyRegistry}
use wgrd_mod_manager.Announce.Codec.{SignedAnnounce, decode}
use wgrd_mod_manager.Announce.Receiver.{
  AnnounceRejection, not_newer, SignatureCheck, AnnounceReceiver, identity, check_newer, save,
  check_signature, judge, accept,
}
use wgrd_mod_manager.Announce.Receiver.Invariant.{Passes, judge-Passes}

-- The version that is retained under an identifier, and 0 for none, as no version is below it.
abbrev pub Newer : Option SignedAnnounce → Option SignedAnnounce → Type 0
Newer none later = Unit
Newer (some a) none = ⊥
Newer (some a) (some b) = a.version ≤ b.version

check_newer-lt :
    (m : Table SignedAnnounce) (a b : SignedAnnounce)
    → check_newer m a ≡ ok tt
    → find (identity a) m ≡ some b
    → b.version < a.version
unfolding check_newer
check_newer-lt m a b e h = ground arith

Newer-refl : (o : Option SignedAnnounce) → Newer o o
Newer-refl none = tt
Newer-refl (some a) = omega arith

-- The one write of `Accept`, seen from any identifier.
insert-Newer :
    (m : Table SignedAnnounce) (a : SignedAnnounce) (k : Bytes)
    → check_newer m a ≡ ok tt
    → Newer (find k m) (find k (insert (identity a) a m))
insert-Newer m a k e = elim (Bool-cases (same k (identity a))) [
  | inl hit ↦
      rw (find-insert (identity a) k a m, hit)
        (elim (Option-cases (find k m)) [
          | inl h ↦ rw h tt
          | inr (b, h) ↦
              let at_identity = ap (λ j. find j m) (sym ((same_iff k (identity a)).0 hit)) ∙ h in
              rw h (omega (arith, check_newer-lt m a b e at_identity))
        ])
  | inr miss ↦ rw (find-insert (identity a) k a m, miss) (Newer-refl (find k m))
]

check_newer_self :
    (m : Table SignedAnnounce) (a : SignedAnnounce)
    → find (identity a) m ≡ some a
    → check_newer m a ≡ err not_newer
unfolding check_newer
check_newer_self m a h = ground arith

module _ (registry : IKeyRegistry) (sodium : SignatureCheck) where
  -- Whatever arrives, no identifier loses its announce, and none goes back to an older version.
  pub accept-Newer :
      (r : AnnounceReceiver) (record_ k : Bytes)
      → Newer (find k r.retained) (find k (accept registry sodium r record_).1.retained)
  unfolding accept
  accept-Newer r record_ k = elim (Result-cases (judge registry sodium r.retained record_)) [
    | inl (a, h) ↦
        rw (h, accept)
          (insert-Newer r.retained a k (judge-Passes registry sodium r.retained record_ h).newer)
    | inr (x, h) ↦ rw (h, accept) (Newer-refl (find k r.retained))
  ]

  -- the two ways in which `Accept` ends
  pub accept_ends :
      (r : AnnounceReceiver) (record_ : Bytes)
      → ((a : SignedAnnounce) × ((accept registry sodium r record_).0 ≡ ok a)
          × (decode record_ ≡ ok a)
          × ((accept registry sodium r record_).1 ≡ record r {
            retained = insert (identity a) a r.retained;
            saved = save r.saved a record_;
          }))
        ⊎ ((x : AnnounceRejection) × ((accept registry sodium r record_).0 ≡ err x)
            × ((accept registry sodium r record_).1
                ≡ record r { rejected = (r.rejected + 1) % 2 ^ 64 }))
  unfolding accept
  accept_ends r record_ = elim (Result-cases (judge registry sodium r.retained record_)) [
    | inl (a, h) ↦ inl (
      a,
      rw (h, accept),
      (judge-Passes registry sodium r.retained record_ h).reads,
      rw (h, accept),
    )
    | inr (x, h) ↦ inr (x, rw (h, accept), rw (h, accept))
  ]

  judge-err :
      (m : Table SignedAnnounce) (record_ : Bytes) (a : SignedAnnounce) (x : AnnounceRejection)
      → decode record_ ≡ ok a
      → check_signature registry sodium a ≡ ok tt
      → check_newer m a ≡ err x
      → judge registry sodium m record_ ≡ err x
  unfolding judge
  judge-err m record_ a x d s n = ground arith

  accept-ok :
      (r : AnnounceReceiver) (record_ : Bytes) {a : SignedAnnounce}
      → (accept registry sodium r record_).0 ≡ ok a
      → Passes registry sodium r.retained record_ a
        × ((accept registry sodium r record_).1.retained ≡ insert (identity a) a r.retained)
  unfolding accept
  accept-ok r record_ {a} e = elim (Result-cases (judge registry sodium r.retained record_)) [
    | inl (b, h) ↦
        let one : b ≡ a = ok-injective (rw (h, accept) at e) in
        (
          judge-Passes registry sodium r.retained record_ (h ∙ ap ok one),
          rw (h, accept) (ap (λ c. insert (identity c) c r.retained) one),
        )
    | inr (x, h) ↦ absurd (differ (rw (h, accept) at e))
  ]
    where
      differ :
          {x : AnnounceRejection}
          → ◌≡◌ {A = Result AnnounceRejection SignedAnnounce} (err x) (ok a)
          → ⊥
      differ h = cc

  accept-err :
      (r : AnnounceReceiver) (record_ : Bytes) (x : AnnounceRejection)
      → judge registry sodium r.retained record_ ≡ err x
      → (accept registry sodium r record_).0 ≡ err x
  unfolding accept
  accept-err r record_ x h = rw (h, accept)

  -- A record that was accepted is refused as not newer when it comes again at once.
  accept_again :
      (r : AnnounceReceiver) (record_ : Bytes) (a : SignedAnnounce)
      → (accept registry sodium r record_).0 ≡ ok a
      → (accept registry sodium (accept registry sodium r record_).1 record_).0 ≡ err not_newer
  accept_again r record_ a e =
      let (p, kept) = accept-ok r record_ e in
      let later = (accept registry sodium r record_).1 in
      let found = ap (find (identity a)) kept ∙ find-insert_self (identity a) a r.retained in
      accept-err later record_ not_newer (
        judge-err later.retained record_ a not_newer p.reads p.signed
          (check_newer_self later.retained a found))
