-- ===== src/Announce/Codec/Layout.antt =====
-- The writes into the zeroed buffer lay the fields out in a row, with no gap and no overlap.

use wgrd_mod_manager.Announce.Summary.Fields.{length-write_le, length-pad_mod_name}
use wgrd_mod_manager.Announce.Summary.{mod_name_bytes, write_le, pad_mod_name}
use wgrd_mod_manager.Common.{
  ℕ, zero, suc, ◌+◌, ◌-◌, ◌≤◌, min, ◌≡◌, refl, sym, ap, ap₂, ◌∙◌, [], ◌∷◌, ◌++◌, append-nil,
  append_assoc, arith, length, take, drop, replicate, length-append, length-take, length-replicate,
  take-append, drop-append, drop-add, Bytes,
}
use wgrd_mod_manager.Announce.Codec.{
  SignedAnnounce, magic, format_version, fingerprint_offset, mod_name_offset, version_offset,
  manifest_digest_offset, torrent_info_hash_offset, signed_bytes, write_at, encode_signable, encode,
  IsAnnounce,
}

-- a run of zero bytes
abbrev pub zeros : ℕ → Bytes
zeros n = replicate n 0

replicate-add : (m k : ℕ) → zeros (m + k) ≡ zeros m ++ zeros k
replicate-add zero k = ap (λ n. zeros n) (omega arith)
replicate-add (suc m) k = ap (λ n. zeros n) (suc-add m k) ∙ ap (◌∷◌ 0) (replicate-add m k)
  where
    suc-add : (m k : ℕ) → suc m + k ≡ suc (m + k)
    suc-add m k = omega arith

-- A write right behind what is already laid out.
write_at-next :
    (offset n k total : ℕ) (laid bytes : Bytes)
    → length laid ≡ offset
    → length bytes ≡ n
    → total ≡ n + k
    → write_at offset bytes (laid ++ zeros total) ≡ (laid ++ bytes) ++ zeros k
unfolding write_at
write_at-next offset n k total laid bytes el eb et =
    let split : zeros total ≡ zeros n ++ zeros k = ap (λ m. zeros m) et ∙ replicate-add n k in
    let front = take-append offset laid (zeros total) el in
    let behind : drop (offset + length bytes) (laid ++ zeros total) ≡ zeros k =
      drop-add offset (length bytes) (laid ++ zeros total)
      ∙ ap (drop (length bytes)) (drop-append offset laid (zeros total) el)
      ∙ ap (drop (length bytes)) split
      ∙ drop-append (length bytes) (zeros n) (zeros k) (length-replicate {A = ℕ} n 0 ∙ sym eb) in
    ap₂ (λ p q. p ++ (bytes ++ q)) front behind ∙ sym (append_assoc laid bytes (zeros k))

-- The record as a row of fields.
abbrev pub head_row : SignedAnnounce → Bytes
head_row a = ((magic ++ write_le 4 format_version) ++ a.publisher) ++ pad_mod_name a.mod_name

abbrev pub signed_row : SignedAnnounce → Bytes
signed_row a = ((head_row a ++ write_le 8 a.version) ++ a.manifest_digest) ++ a.torrent_info_hash

abbrev name_part : SignedAnnounce → Bytes
name_part a = take (min (length a.mod_name) mod_name_bytes) a.mod_name

length-name_part :
    (a : SignedAnnounce) → length (name_part a) ≡ min (length a.mod_name) mod_name_bytes
length-name_part a = omega (arith, length-take (min (length a.mod_name) mod_name_bytes) a.mod_name)

-- The name and the zeros that stay behind it are the padded name.
name_padded :
    (a : SignedAnnounce) (laid : Bytes)
    → (laid ++ name_part a) ++ zeros (136 - length (name_part a))
      ≡ (laid ++ pad_mod_name a.mod_name) ++ zeros 72
unfolding pad_mod_name
name_padded a laid =
    let gap = 64 - min (length a.mod_name) 64 in
    let e : 136 - length (name_part a) ≡ gap + 72 = omega (arith, length-name_part a) in
    ap (λ n. (laid ++ name_part a) ++ zeros n) e
    ∙ ap (λ z. (laid ++ name_part a) ++ z) (replicate-add gap 72)
    ∙ simp append_assoc

length-row :
    (laid bytes : Bytes) {p n : ℕ}
    → length laid ≡ p
    → length bytes ≡ n
    → length (laid ++ bytes) ≡ p + n
length-row laid bytes e h = omega (arith, length-append laid bytes)

module _ (a : SignedAnnounce) (v : IsAnnounce a) where
  abbrev row_2 : Bytes
  row_2 = magic ++ write_le 4 format_version

  abbrev row_3 : Bytes
  row_3 = row_2 ++ a.publisher

  length-row_2 : length row_2 ≡ fingerprint_offset
  length-row_2 = length-row magic (write_le 4 format_version) refl (length-write_le 4 1)

  length-row_3 : length row_3 ≡ mod_name_offset
  length-row_3 = length-row row_2 a.publisher length-row_2 v.publisher_length

  length-head_row : length (head_row a) ≡ version_offset
  length-head_row =
      length-row row_3 (pad_mod_name a.mod_name) length-row_3 (length-pad_mod_name a.mod_name)

  abbrev row_5 : Bytes
  row_5 = head_row a ++ write_le 8 a.version

  abbrev row_6 : Bytes
  row_6 = row_5 ++ a.manifest_digest

  length-row_5 : length row_5 ≡ manifest_digest_offset
  length-row_5 =
      length-row (head_row a) (write_le 8 a.version) length-head_row (length-write_le 8 a.version)

  length-row_6 : length row_6 ≡ torrent_info_hash_offset
  length-row_6 = length-row row_5 a.manifest_digest length-row_5 v.manifest_digest_length

  pub length-signed_row : length (signed_row a) ≡ signed_bytes
  length-signed_row = length-row row_6 a.torrent_info_hash length-row_6 v.torrent_info_hash_length

  laid_name : write_at mod_name_offset (name_part a) (row_3 ++ zeros 136) ≡ head_row a ++ zeros 72
  laid_name =
      let n = length (name_part a) in
      let short : n ≤ 64 = omega (arith, length-name_part a) in
      write_at-next mod_name_offset n (136 - n) 136 row_3 (name_part a) length-row_3 refl
        (omega (arith, short))
      ∙ name_padded a row_3

  -- The buffer that is signed is the row of the fields.
  encode_signable-signed_row : encode_signable a ≡ signed_row a
  unfolding encode_signable
  encode_signable-signed_row =
      let marked = write_at-next 0 8 148 156 [] magic refl refl refl in
      let formatted =
        write_at-next 8 4 144 148 magic (write_le 4 1) refl (length-write_le 4 1) refl in
      let published =
        write_at-next 12 8 136 144 row_2 a.publisher length-row_2 v.publisher_length refl in
      let versioned =
        write_at-next 84 8 64 72 (head_row a) (write_le 8 a.version) length-head_row
          (length-write_le 8 a.version) refl in
      let digested =
        write_at-next 92 32 32 64 row_5 a.manifest_digest length-row_5 v.manifest_digest_length
          refl in
      let hashed =
        write_at-next 124 32 0 32 row_6 a.torrent_info_hash length-row_6 v.torrent_info_hash_length
          refl in
      let at_8 = ap (write_at 8 (write_le 4 1)) marked ∙ formatted in
      let at_12 = ap (write_at 12 a.publisher) at_8 ∙ published in
      let at_20 = ap (write_at 20 (name_part a)) at_12 ∙ laid_name in
      let at_84 = ap (write_at 84 (write_le 8 a.version)) at_20 ∙ versioned in
      let at_92 = ap (write_at 92 a.manifest_digest) at_84 ∙ digested in
      ap (write_at 124 a.torrent_info_hash) at_92 ∙ hashed ∙ append-nil (signed_row a)

  -- The record is the signed part with the signature behind it.
  pub encode-signed_row : encode a ≡ signed_row a ++ a.signature
  unfolding encode
  encode-signed_row =
      ap (λ b. write_at 156 a.signature (b ++ zeros 64)) encode_signable-signed_row
      ∙ write_at-next 156 64 0 64 (signed_row a) a.signature length-signed_row v.signature_length
          refl
      ∙ append-nil (signed_row a ++ a.signature)
