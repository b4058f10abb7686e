-- ===== src/Announce/Receiver/Judgement.antt =====
-- Why a record is accepted or refused, and what is changed by it.
use wgrd_mod_manager.Announce.Receiver.{
  AnnounceRejection, malformed, unknown_publisher, revoked_publisher, signature_invalid, not_newer,
  SignatureCheck, maximum_retained, AnnounceReceiver, check_newer, decoded, save, check_signature,
  judge, accept,
}
use wgrd_mod_manager.Common.{
  ◌+◌, ◌%◌, ◌^◌, ◌≤◌, ◌<◌, ◌≡◌, refl, sym, ap, ◌∙◌, ◌≢◌, ◌⊎◌, inl, inr, true, false, Option, none,
  some, List, [], ◌∷◌, ◌++◌, arith, ltb, Bool-cases, Option-cases, some-injective, length, Bytes,
  same, same_iff, Result, ok, err, is_ok, Result-cases,
}
use wgrd_mod_manager.Common.Table.{Table, find, insert}
use wgrd_mod_manager.Common.Table.Laws.{find-insert, find-insert_self}
use wgrd_mod_manager.Domain.FixedBytes.{to_hex}
use wgrd_mod_manager.Announce.Summary.{identifier_of}
use wgrd_mod_manager.Trust.Registry.{RegisteredKey, IKeyRegistry}
use wgrd_mod_manager.Announce.Codec.{SignedAnnounce, encode_signable, decode}
use wgrd_mod_manager.Announce.Receiver.Invariant.{IsTrusted, check_signature-IsTrusted}

-- what an announce is retained under: the fingerprint of its publisher in hexadecimal digits, a slash
-- and the name of its mod
abbrev pub key_of : SignedAnnounce → Bytes
key_of a = to_hex a.publisher ++ (b'/' ∷ a.mod_name)

-- Nothing is retained under the announce's identifier and there is room, or what is retained there is
-- older.
pub data IsNews (m : Table SignedAnnounce) (a : SignedAnnounce) : Type 0 where
  is_first : find (key_of a) m ≡ none → length m < 4096 → IsNews m a
  is_later : (b : SignedAnnounce) → find (key_of a) m ≡ some b → b.version < a.version → IsNews m a

-- How the store's calls go on.
abbrev pub IsSaved :
    SignedAnnounce
    → Bytes
    → Option (List (SignedAnnounce × Bytes))
    → Option (List (SignedAnnounce × Bytes))
    → Type 0
IsSaved a record_ none after = after ≡ none
IsSaved a record_ (some calls) after = after ≡ some (calls ++ (a, record_) ∷ [])

module _ (registry : IKeyRegistry) (sodium : SignatureCheck) where
  -- what makes each refusal true of a record
  pub data IsReason (m : Table SignedAnnounce) (record_ : Bytes) : AnnounceRejection → Type 0 where
    unreadable : is_ok (decode record_) ≡ false → IsReason m record_ malformed
    unregistered :
        (a : SignedAnnounce)
        → decode record_ ≡ ok a
        → registry.find_key a.publisher ≡ none
        → IsReason m record_ unknown_publisher
    is_revoked :
        (a : SignedAnnounce) (key : RegisteredKey)
        → decode record_ ≡ ok a
        → registry.find_key a.publisher ≡ some key
        → key.revoked ≡ true
        → IsReason m record_ revoked_publisher
    unverified :
        (a : SignedAnnounce) (key : RegisteredKey)
        → decode record_ ≡ ok a
        → registry.find_key a.publisher ≡ some key
        → key.revoked ≡ false
        → (sodium.is_ready ≡ false)
          ⊎ (sodium.verifies a.signature (encode_signable a) key.public_key ≡ false)
        → IsReason m record_ signature_invalid
    no_news :
        (a : SignedAnnounce)
        → decode record_ ≡ ok a
        → IsTrusted registry sodium a
        → (IsNews m a → ⊥)
        → IsReason m record_ not_newer

  pub record IsTaken (r later : AnnounceReceiver) (record_ : Bytes) (a : SignedAnnounce)
      : Type 0 where
    pub reads : decode record_ ≡ ok a
    pub trusted : IsTrusted registry sodium a
    pub is_ready : sodium.is_ready ≡ true
    pub news : IsNews r.retained a
    pub kept : find (key_of a) later.retained ≡ some a
    pub others : (k : Bytes) → k ≢ key_of a → find k later.retained ≡ find k r.retained
    pub stored : IsSaved a record_ r.saved later.saved
    pub uncounted : later.rejected ≡ r.rejected

  pub record IsRefused (r later : AnnounceReceiver) (record_ : Bytes) (x : AnnounceRejection)
      : Type 0 where
    pub reason : IsReason r.retained record_ x
    pub retained_same : later.retained ≡ r.retained
    pub saved_same : later.saved ≡ r.saved
    pub counted : later.rejected ≡ (r.rejected + 1) % 2 ^ 64

  -- an answer and the state after it
  abbrev pub Judges :
      AnnounceReceiver → Bytes → Result AnnounceRejection SignedAnnounce × AnnounceReceiver → Type 0
  Judges r record_ (ok a, later) = IsTaken r later record_ a
  Judges r record_ (err x, later) = IsRefused r later record_ x

  check_newer_cases :
      (m : Table SignedAnnounce) (a : SignedAnnounce)
      → ((check_newer m a ≡ ok tt) × IsNews m a)
        ⊎ ((check_newer m a ≡ err not_newer) × (IsNews m a → ⊥))
  unfolding check_newer identifier_of
  check_newer_cases m a = elim (Option-cases (find (key_of a) m)) [
    | inl e ↦ elim (Bool-cases (ltb (length m) maximum_retained)) [
      | inl h ↦ inl (rw (e, check_newer) (rw h refl), is_first e (ground (arith, h)))
      | inr h ↦ inr (rw (e, check_newer) (rw h refl), full e (ground (arith, h)))
    ]
    | inr (b, e) ↦ elim (Bool-cases (ltb b.version a.version)) [
      | inl h ↦ inl (rw (e, check_newer) (rw h refl), is_later b e (ground (arith, h)))
      | inr h ↦ inr (rw (e, check_newer) (rw h refl), older b e (ground (arith, h)))
    ]
  ]
    where
      full : find (key_of a) m ≡ none → 4096 ≤ length m → IsNews m a → ⊥
      full e h (is_first f g) = omega (arith, h, g)
      full e h (is_later b f g) = absurd (ground (arith, e, f))

      older :
          (b : SignedAnnounce) → find (key_of a) m ≡ some b → a.version ≤ b.version → IsNews m a → ⊥
      older b e h (is_first f g) = absurd (ground (arith, e, f))
      older b e h (is_later c f g) =
          let same_one : b ≡ c = some-injective (sym e ∙ f) in
          omega (arith, h, g, ap (λ (q : SignedAnnounce). q.version) same_one)

  check_signature_cases :
      (m : Table SignedAnnounce) (record_ : Bytes) (a : SignedAnnounce)
      → decode record_ ≡ ok a
      → ((check_signature registry sodium a ≡ ok tt) × (sodium.is_ready ≡ true))
        ⊎ ((x : AnnounceRejection) × (check_signature registry sodium a ≡ err x)
            × IsReason m record_ x)
  unfolding check_signature
  check_signature_cases m record_ a d = elim (Option-cases (registry.find_key a.publisher)) [
    | inl e ↦ inr (unknown_publisher, rw (e, check_signature) refl, unregistered a d e)
    | inr (key, e) ↦ elim (Bool-cases key.revoked) [
      | inl h ↦ inr (revoked_publisher, rw (e, check_signature) (rw h refl), is_revoked a key d e h)
      | inr h ↦ elim (Bool-cases sodium.is_ready) [
        | inr g ↦ inr (
          signature_invalid,
          rw (e, check_signature) (rw h (rw g refl)),
          unverified a key d e h (inl g),
        )
        | inl g ↦
            elim (Bool-cases (sodium.verifies a.signature (encode_signable a) key.public_key)) [
              | inr f ↦ inr (
                signature_invalid,
                rw (e, check_signature) (rw h (rw g (rw f refl))),
                unverified a key d e h (inr f),
              )
              | inl f ↦ inl (rw (e, check_signature) (rw h (rw g (rw f refl))), g)
            ]
      ]
    ]
  ]

  -- what `judge` answers, and why
  judge_cases :
      (m : Table SignedAnnounce) (record_ : Bytes)
      → ((a : SignedAnnounce) × (judge registry sodium m record_ ≡ ok a)
          × (decode record_ ≡ ok a)
          × IsTrusted registry sodium a
          × (sodium.is_ready ≡ true)
          × IsNews m a)
        ⊎ ((x : AnnounceRejection) × (judge registry sodium m record_ ≡ err x)
            × IsReason m record_ x)
  unfolding judge
  judge_cases m record_ = elim (Result-cases (decode record_)) [
    | inr (q, d) ↦ inr (malformed, rw (d, judge, decoded) refl, unreadable (rw d refl))
    | inl (a, d) ↦ elim (check_signature_cases m record_ a d) [
      | inr (x, s, why) ↦ inr (x, rw (d, judge, decoded) (rw s refl), why)
      | inl (s, ready) ↦
          let trusted = check_signature-IsTrusted registry sodium a s in
          elim (check_newer_cases m a) [
            | inl (n, news) ↦
                inl (a, rw (d, judge, decoded) (rw s (rw n refl)), d, trusted, ready, news)
            | inr (n, old) ↦
                inr (not_newer, rw (d, judge, decoded) (rw s (rw n refl)), no_news a d trusted old)
          ]
    ]
  ]

  save-IsSaved :
      (saved : Option (List (SignedAnnounce × Bytes))) (a : SignedAnnounce) (record_ : Bytes)
      → IsSaved a record_ saved (save saved a record_)
  save-IsSaved none a record_ = refl
  save-IsSaved (some calls) a record_ = refl

  find-insert_other :
      (k j : Bytes) (a : SignedAnnounce) (m : Table SignedAnnounce)
      → (j ≢ k)
      → find j (insert k a m) ≡ find j m
  find-insert_other k j a m h = elim (Bool-cases (same j k)) [
    | inl e ↦ absurd (h ((same_iff j k).0 e))
    | inr e ↦ find-insert k j a m ∙ rw e refl
  ]

  -- A record is accepted just when it is readable, its publisher's key is registered and not revoked,
  -- libsodium is ready and verifies its signature, and it is news; then it is what is retained under
  -- its identifier, nothing else that is retained changes, and a store is told of it, once. Otherwise
  -- it is refused with a rejection that is true of it, and nothing changes but the count of refusals.
  pub accept-Judges :
      (r : AnnounceReceiver) (record_ : Bytes) → Judges r record_ (accept registry sodium r record_)
  unfolding accept identifier_of
  accept-Judges r record_ = elim (judge_cases r.retained record_) [
    | inl (a, h, d, trusted, ready, news) ↦
        rw (h, accept)
          (record {
            reads = d;
            trusted = trusted;
            is_ready = ready;
            news = news;
            kept = find-insert_self (key_of a) a r.retained;
            others = λ k n. find-insert_other (key_of a) k a r.retained n;
            stored = save-IsSaved r.saved a record_;
            uncounted = refl;
          })
    | inr (x, h, why) ↦
        rw (h, accept)
          (record { reason = why; retained_same = refl; saved_same = refl; counted = refl })
  ]
