-- ===== src/Announce/Wire/RoundTrip.antt =====
-- What `EncodeOffer` and `EncodeWant` write, `DecodeOffer` and `DecodeWant` read back.
use wgrd_mod_manager.Common.{
  ℕ, suc, ◌+◌, ◌*◌, ◌/◌, ◌%◌, ◌≤◌, min, ◌≡◌, refl, sym, ap, ◌∙◌, inl, inr, Bool, true, false, some,
  List, [], ◌∷◌, ◌++◌, map, arith, leb, leb→le, Bool-cases, length, take, drop, All, length-append,
  length-take, drop-append, drop-add, take_all, All-take, Bytes,
}
use wgrd_mod_manager.Announce.Summary.{AnnounceSummary, IsSummary}
use wgrd_mod_manager.Announce.Wire.{
  offer, want, offer_entry_bytes, want_entry_bytes, maximum_entries, encode_entry, encode_entries,
  encode_offer, encode_want, decode_from, decode_entries, decode_offer, decode_want,
}
use wgrd_mod_manager.Announce.Wire.Entries.{
  shown, entry_bytes_of, length-encode_entry, read_summary-drop, read_summary-encode_entry,
}

length-encode_entries :
    (w : Bool) (ss : List AnnounceSummary)
    → All IsSummary ss
    → length (encode_entries w ss) ≡ length ss * entry_bytes_of w
unfolding encode_entries
length-encode_entries w [] v = omega arith
length-encode_entries true (s ∷ ss) v = omega (
  arith,
  length-append (encode_entry true s) (encode_entries true ss),
  length-encode_entry true s v.0,
  length-encode_entries true ss v.1,
)
length-encode_entries false (s ∷ ss) v = omega (
  arith,
  length-append (encode_entry false s) (encode_entries false ss),
  length-encode_entry false s v.0,
  length-encode_entries false ss v.1,
)

-- One more entry behind the offset of entry `i`.
drop_next :
    (w : Bool) (m : Bytes) (i : ℕ) (s : AnnounceSummary) (rest : Bytes)
    → IsSummary s
    → drop (3 + i * entry_bytes_of w) m ≡ encode_entry w s ++ rest
    → drop (3 + suc i * entry_bytes_of w) m ≡ rest
drop_next w m i s rest v e =
    ap (λ k. drop k m) (step w i)
    ∙ drop-add (3 + i * entry_bytes_of w) (entry_bytes_of w) m
    ∙ ap (drop (entry_bytes_of w)) e
    ∙ drop-append (entry_bytes_of w) (encode_entry w s) rest (length-encode_entry w s v)
  where
    step :
        (w : Bool) (i : ℕ)
        → 3 + suc i * entry_bytes_of w ≡ 3 + i * entry_bytes_of w + entry_bytes_of w
    step w i = grind arith

decode_from-encode_entries :
    (w : Bool) (ss : List AnnounceSummary) (m : Bytes) (i : ℕ)
    → All IsSummary ss
    → drop (3 + i * entry_bytes_of w) m ≡ encode_entries w ss
    → decode_from w (entry_bytes_of w) m (length ss) i ≡ some (map (shown w) ss)
unfolding decode_from encode_entries
decode_from-encode_entries w [] m i v e = refl
decode_from-encode_entries w (s ∷ ss) m i v e =
    let rest = decode_from-encode_entries w ss m (suc i) v.1 (drop_next w m i s _ v.0 e) in
    rw (read_summary-drop w m (3 + i * entry_bytes_of w), e)
      (rw (read_summary-encode_entry w s (encode_entries w ss) v.0, rest))

module _ (ss : List AnnounceSummary) (n : ℕ) (v : All IsSummary ss) (e : length ss ≡ n)
    (h : n ≤ maximum_entries) where
  count_read : n % 256 + n / 256 % 256 * 256 ≡ length ss
  count_read = omega arith

  decode_entries-offer :
      decode_entries offer offer_entry_bytes true
        (1 ∷ n % 256 ∷ n / 256 % 256 ∷ encode_entries true ss)
      ≡ some (map (shown true) ss)
  unfolding decode_entries
  decode_entries-offer =
      let m : Bytes = 1 ∷ n % 256 ∷ n / 256 % 256 ∷ encode_entries true ss in
      let size = length-encode_entries true ss v in
      rw count_read (ground (arith, size, decode_from-encode_entries true ss m 0 v refl))

  decode_entries-want :
      decode_entries want want_entry_bytes false
        (2 ∷ n % 256 ∷ n / 256 % 256 ∷ encode_entries false ss)
      ≡ some (map (shown false) ss)
  unfolding decode_entries
  decode_entries-want =
      let m : Bytes = 2 ∷ n % 256 ∷ n / 256 % 256 ∷ encode_entries false ss in
      let size = length-encode_entries false ss v in
      rw count_read (ground (arith, size, decode_from-encode_entries false ss m 0 v refl))

-- How many summaries fit into one message.
abbrev sent : List AnnounceSummary → List AnnounceSummary
sent ss = take (min (length ss) maximum_entries) ss

sent_count : (ss : List AnnounceSummary) → length (sent ss) ≡ min (length ss) maximum_entries
sent_count ss = omega (arith, length-take (min (length ss) maximum_entries) ss)

sent-take : (ss : List AnnounceSummary) → sent ss ≡ take maximum_entries ss
sent-take ss = elim (Bool-cases (leb (length ss) maximum_entries)) [
  | inl h ↦
      take_all (min (length ss) maximum_entries) ss (omega (arith, leb→le _ _ h))
      ∙ sym (take_all maximum_entries ss (leb→le _ _ h))
  | inr h ↦ ap (λ n. take n ss) (min_right (length ss) h)
]
  where
    min_right : (n : ℕ) → leb n maximum_entries ≡ false → min n maximum_entries ≡ maximum_entries
    min_right n h = ground arith

map-shown-true : (ss : List AnnounceSummary) → map (shown true) ss ≡ ss
map-shown-true [] = refl
map-shown-true (s ∷ ss) = ap (◌∷◌ s) (map-shown-true ss)

pub decode_offer-encode_offer :
    (ss : List AnnounceSummary)
    → All IsSummary ss
    → decode_offer (encode_offer ss) ≡ some (take maximum_entries ss)
unfolding decode_offer encode_offer
decode_offer-encode_offer ss v =
    let count = min (length ss) maximum_entries in
    decode_entries-offer (sent ss) count (All-take IsSummary count ss v) (sent_count ss)
      (omega arith)
    ∙ ap some (map-shown-true (sent ss) ∙ sent-take ss)

-- A want reads back as the publishers and names of the first 64 summaries that it was made of.
pub decode_want-encode_want :
    (ss : List AnnounceSummary)
    → All IsSummary ss
    → decode_want (encode_want ss) ≡ some (map (shown false) (take maximum_entries ss))
unfolding decode_want encode_want
decode_want-encode_want ss v =
    let count = min (length ss) maximum_entries in
    decode_entries-want (sent ss) count (All-take IsSummary count ss v) (sent_count ss)
      (omega arith)
    ∙ ap (λ t. some (map (shown false) t)) (sent-take ss)
