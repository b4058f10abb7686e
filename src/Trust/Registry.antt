-- ===== src/Trust/Registry.antt =====
-- src/domain/interfaces/trust/IKeyRegistry.h, src/domain/types/identity/RegisteredKey.h and
-- src/manager/trust/KeyRegistry.cpp.
use wgrd_mod_manager.Common.{
  ◌≡◌, refl, Bool, false, not, Option, none, some, List, find_if, Bytes, same,
}

pub record RegisteredKey : Type 0 where
  pub fingerprint : Bytes
  pub public_key : Bytes
  pub publisher : Bytes
  pub revoked : Bool

-- What the receiver of announces asks of a registry, and how the two answers go together.
pub record IKeyRegistry : Type 0 where
  pub find_key : Bytes → Option RegisteredKey
  pub is_usable : Bytes → Bool
  pub usable_is_unrevoked :
      (fingerprint : Bytes)
      → is_usable fingerprint
        ≡ elim (find_key fingerprint) [ none ↦ false | some k ↦ not k.revoked ]

abbrev pub KeyRegistry : Type 0
KeyRegistry = List RegisteredKey

unfoldable pub find_registered : KeyRegistry → Bytes → Option RegisteredKey
find_registered keys fingerprint = find_if (λ key. same key.fingerprint fingerprint) keys

unfoldable pub is_registered_usable : KeyRegistry → Bytes → Bool
unfolding find_registered
is_registered_usable keys fingerprint = elim (find_registered keys fingerprint) [
  | none ↦ false
  | some key ↦ not key.revoked
]

pub is_registered_usable_lem :
    (keys : KeyRegistry) (fingerprint : Bytes)
    → is_registered_usable keys fingerprint
      ≡ elim (find_registered keys fingerprint) [ none ↦ false | some k ↦ not k.revoked ]
unfolding is_registered_usable
is_registered_usable_lem keys fingerprint = refl

-- The list of keys answers as the interface demands.
unfoldable pub key_registry : KeyRegistry → IKeyRegistry
unfolding find_registered is_registered_usable
key_registry keys = record {
  find_key = find_registered keys;
  is_usable = is_registered_usable keys;
  usable_is_unrevoked = is_registered_usable_lem keys;
}
