-- ===== src/Announce/Receiver.antt =====
-- src/manager/announce/AnnounceReceiver: the announces that this program has verified and keeps.
-- libsodium is a parameter (`SignatureCheck`). `AnnounceStore` writes files; its calls of `Save`
-- are kept in the order in which they are made, and `LoadAll` is an argument of `restore`.
pub mod Invariant
pub mod Versions
pub mod Judgement
pub mod Offers
use wgrd_mod_manager.Common.{
  ℕ, ◌+◌, ◌%◌, ◌^◌, Bool, false, not, Option, none, some, List, [], ◌∷◌, ◌++◌, map, ltb,
  if◌then◌else◌, length, Bytes, Result, ok, err, ◌>>=◌, ◌>>◌, demand, is_ok,
}
use wgrd_mod_manager.Common.Table.{Table, find, insert}
use wgrd_mod_manager.Trust.Registry.{IKeyRegistry}
use wgrd_mod_manager.Announce.Summary.{AnnounceSummary, identifier_of}
use wgrd_mod_manager.Announce.Codec.{SignedAnnounce, encode_signable, encode, decode}

pub data AnnounceRejection : Type 0 where
  malformed unknown_publisher revoked_publisher signature_invalid not_newer : AnnounceRejection

-- `SodiumRuntime::Ready` and `crypto_sign_verify_detached(signature, message, key) == 0`
pub record SignatureCheck : Type 0 where
  pub is_ready : Bool
  pub verifies : Bytes → Bytes → Bytes → Bool

abbrev pub maximum_retained : ℕ
maximum_retained = 4096

pub record AnnounceReceiver : Type 0 where
  pub retained : Table SignedAnnounce
  pub rejected : ℕ
  -- `none` where there is no store
  pub saved : Option (List (SignedAnnounce × Bytes))

abbrev pub identity : SignedAnnounce → Bytes
identity a = identifier_of a.publisher a.mod_name

-- the tests against what is retained
unfoldable pub check_newer :
    Table SignedAnnounce → SignedAnnounce → Result AnnounceRejection (Unit {0})
check_newer retained a = elim (find (identity a) retained) [
  | some existing ↦ demand (ltb existing.version a.version) not_newer
  | none ↦ demand (ltb (length retained) maximum_retained) not_newer
]

-- `AnnounceCodec::Decode`, each of its errors being `Malformed`
abbrev pub decoded : Bytes → Result AnnounceRejection SignedAnnounce
decoded record_ = elim (decode record_) [ ok a ↦ ok a | err e ↦ err malformed ]

abbrev pub save :
    Option (List (SignedAnnounce × Bytes))
    → SignedAnnounce
    → Bytes
    → Option (List (SignedAnnounce × Bytes))
save none a record_ = none
save (some calls) a record_ = some (calls ++ (a, record_) ∷ [])

module _ (registry : IKeyRegistry) (sodium : SignatureCheck) where
  open registry use {find_key, is_usable}

  -- the tests of the publisher's key and of the signature
  unfoldable pub check_signature : SignedAnnounce → Result AnnounceRejection (Unit {0})
  check_signature a = elim (find_key a.publisher) [
    | none ↦ err unknown_publisher
    | some key ↦ do
      demand (not key.revoked) revoked_publisher
      demand sodium.is_ready signature_invalid
      demand (sodium.verifies a.signature (encode_signable a) key.public_key) signature_invalid
  ]

  unfoldable pub judge : Table SignedAnnounce → Bytes → Result AnnounceRejection SignedAnnounce
  judge retained record_ = do a ← decoded record_; check_signature a; check_newer retained a; ok a

  unfoldable pub accept :
      AnnounceReceiver → Bytes → Result AnnounceRejection SignedAnnounce × AnnounceReceiver
  accept r record_ = elim (judge r.retained record_) [
    | err e ↦ (err e, record r { rejected = (r.rejected + 1) % 2 ^ 64 })
    | ok a ↦ (
      ok a,
      record r { retained = insert (identity a) a r.retained; saved = save r.saved a record_ },
    )
  ]

  -- the loop of `Restore` over the records of the store
  unfoldable pub restore : AnnounceReceiver → List Bytes → ℕ × AnnounceReceiver
  unfolding accept
  restore r [] = (0, r)
  restore r (record_ ∷ records) =
      let (answer, r') = accept r record_ in
      let (restored, r'') = restore r' records in
      (if is_ok answer then restored + 1 else restored, r'')

  unfoldable pub would_accept : AnnounceReceiver → Bytes → Bytes → ℕ → Bool
  would_accept r publisher mod_name version =
      if not (is_usable publisher)
      then false
      else elim (find (identifier_of publisher mod_name) r.retained) [
        | none ↦ ltb (length r.retained) maximum_retained
        | some existing ↦ ltb existing.version version
      ]

-- `Record`: the record of a retained announce, encoded again
unfoldable pub record_of : AnnounceReceiver → Bytes → Bytes → Option Bytes
record_of r publisher mod_name = elim (find (identifier_of publisher mod_name) r.retained) [
  | none ↦ none
  | some a ↦ some (encode a)
]

unfoldable pub summaries : AnnounceReceiver → List AnnounceSummary
summaries r =
    map
      (λ (entry : Bytes × SignedAnnounce). record {
        publisher = entry.1.publisher;
        mod_name = entry.1.mod_name;
        version = entry.1.version;
      })
      r.retained
