-- ===== src/Transfer/SeedRoster.antt =====
-- src/downloader/transfer/SeedRoster and src/domain/types/status/SeedEntry.h: what is seeded, in
-- two lists that go in step. A torrent handle is a number. Each method holds the lock for its
-- whole body.
pub mod Paired
use wgrd_mod_manager.Common.{
  ℕ, zero, suc, ◌+◌, ◌%◌, ◌^◌, Bool, true, false, Option, none, some, List, [], ◌∷◌, ◌++◌, ltb,
  if◌then◌else◌, length, Bytes, same,
}
use wgrd_mod_manager.Domain.Manifest.{ModManifest}

pub record SeededTorrent : Type 0 where
  pub identifier : Bytes
  pub handle : ℕ
  pub manifest : ModManifest
  pub mod_folder : Bytes

pub record SeedEntry : Type 0 where
  pub identifier : Bytes
  pub mod_name : Bytes
  pub version : ℕ
  pub payload_bytes : ℕ
  pub chunk_count : ℕ
  pub info_hash : Bytes
  pub seeding : Bool
  pub peers : ℕ
  pub uploaded_bytes : ℕ

pub record RemovedSeed : Type 0 where
  pub handle : ℕ
  pub manifest : ModManifest
  pub mod_folder : Bytes
  pub info_hash : Bytes

pub record SeedHandleView : Type 0 where
  pub identifier : Bytes
  pub handle : ℕ
  pub peers : ℕ

pub record SeedRoster : Type 0 where
  pub seeded : List SeededTorrent
  pub entries : List SeedEntry

-- `PositionOf_`: the number of seeds where there is none of the identifier
unfoldable pub position_of : List SeededTorrent → Bytes → ℕ
position_of [] identifier = 0
position_of (s ∷ seeded) identifier =
    if same s.identifier identifier then 0 else suc (position_of seeded identifier)

-- `operator[]`, with `none` out of range
abbrev pub item_at : {A : Type 0} → ℕ → List A → Option A
item_at n [] = none
item_at zero (x ∷ xs) = some x
item_at (suc n) (x ∷ xs) = item_at n xs

-- `erase` at a position
abbrev pub erase_at : {A : Type 0} → ℕ → List A → List A
erase_at n [] = []
erase_at zero (x ∷ xs) = xs
erase_at (suc n) (x ∷ xs) = x ∷ erase_at n xs

abbrev pub change_at : {A : Type 0} → ℕ → (A → A) → List A → List A
change_at n f [] = []
change_at zero f (x ∷ xs) = f x ∷ xs
change_at (suc n) f (x ∷ xs) = x ∷ change_at n f xs

unfoldable pub is_seeded : SeedRoster → Bytes → Bool
is_seeded r identifier = ltb (position_of r.seeded identifier) (length r.seeded)

unfoldable pub add : SeedRoster → SeededTorrent → SeedEntry → Bool × SeedRoster
add r s entry =
    if ltb (position_of r.seeded s.identifier) (length r.seeded)
    then (false, r)
    else (true, record { seeded = r.seeded ++ s ∷ []; entries = r.entries ++ entry ∷ [] })

unfoldable pub remove : SeedRoster → Bytes → Option RemovedSeed × SeedRoster
remove r identifier =
    let position = position_of r.seeded identifier in
    elim (item_at position r.seeded) [
      | none ↦ (none, r)
      | some s ↦ (
        some (record {
          handle = s.handle;
          manifest = s.manifest;
          mod_folder = s.mod_folder;
          info_hash = elim (item_at position r.entries) [ none ↦ [] | some e ↦ e.info_hash ];
        }),
        record { seeded = erase_at position r.seeded; entries = erase_at position r.entries },
      )
    ]

unfoldable pub handle_for : SeedRoster → Bytes → Option ℕ
handle_for r identifier = elim (item_at (position_of r.seeded identifier) r.seeded) [
  | none ↦ none
  | some s ↦ some s.handle
]

-- the loop of `Handles`; a seed without an entry has no peers
unfoldable pub views_of : List SeededTorrent → List SeedEntry → List SeedHandleView
views_of [] entries = []
views_of (s ∷ seeded) [] =
    record { identifier = s.identifier; handle = s.handle; peers = 0 } ∷ views_of seeded []
views_of (s ∷ seeded) (e ∷ entries) =
    record { identifier = s.identifier; handle = s.handle; peers = e.peers }
    ∷ views_of seeded entries

unfoldable pub handles : SeedRoster → List SeedHandleView
handles r = views_of r.seeded r.entries

-- the loop of `UploadedBytes`
unfoldable pub uploaded_from : ℕ → List SeedEntry → ℕ
uploaded_from total [] = total
uploaded_from total (e ∷ entries) = uploaded_from ((total + e.uploaded_bytes) % 2 ^ 64) entries

unfoldable pub uploaded_bytes : SeedRoster → ℕ
uploaded_bytes r = uploaded_from 0 r.entries

unfoldable pub update_seed : SeedRoster → Bytes → Bool → ℕ → ℕ → SeedRoster
update_seed r identifier seeding peers uploaded = record r {
  entries =
      change_at (position_of r.seeded identifier)
        (λ e. record e { seeding = seeding; peers = peers; uploaded_bytes = uploaded }) r.entries;
}
