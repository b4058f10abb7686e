-- ===== src/Announce/Wire/Sound.antt =====
-- What a peer can make the decoders return.

use wgrd_mod_manager.Common.{
  ℕ, zero, suc, ◌+◌, ◌*◌, ◌≤◌, ◌≡◌, sym, ap, ◌∙◌, inl, inr, Bool, true, false, some, List, [], ◌∷◌,
  arith, Option-cases, length, drop, All, Bytes, AreBytes,
}
use wgrd_mod_manager.Announce.Summary.{version_bytes, AnnounceSummary, IsSummary}
use wgrd_mod_manager.Announce.Summary.Fields.{read_le-lt}
use wgrd_mod_manager.Announce.Wire.{
  AnnounceWireMessage, offer, want, offer_entry_bytes, want_entry_bytes, maximum_entries,
  read_summary, decode_from, count_of, decode_entries, decode_offer, decode_want,
}

pub AreBytes-drop : (n : ℕ) (bs : Bytes) → AreBytes bs → AreBytes (drop n bs)
AreBytes-drop zero bs h = h
AreBytes-drop (suc n) [] h = tt
AreBytes-drop (suc n) (b ∷ bs) h = AreBytes-drop n bs h.1

read_summary-IsSummary :
    (w : Bool) (m : Bytes) (at name_at version_at : ℕ) {s : AnnounceSummary}
    → AreBytes m
    → read_summary w m at name_at version_at ≡ some s
    → IsSummary s
unfolding read_summary
read_summary-IsSummary true m at name_at version_at b e =
    ground (arith, read_le-lt version_bytes (drop version_at m) (AreBytes-drop version_at m b))
read_summary-IsSummary false m at name_at version_at b e = ground arith

decode_from-IsSummary :
    (w : Bool) (entry_bytes : ℕ) (m : Bytes) (left i : ℕ) {ss : List AnnounceSummary}
    → AreBytes m
    → decode_from w entry_bytes m left i ≡ some ss
    → All IsSummary ss × (length ss ≡ left)
unfolding decode_from
decode_from-IsSummary w n m zero i b e = ground arith
decode_from-IsSummary w n m (suc left) i b e =
    elim (Option-cases (read_summary w m (3 + i * n) (3 + i * n + 8) (3 + i * n + 8 + 64))) [
      | inl h ↦ cc
      | inr (s, h) ↦ elim (Option-cases (decode_from w n m left (suc i))) [
        | inl k ↦ cc
        | inr (ss, k) ↦
            let first = read_summary-IsSummary w m _ _ _ b h in
            let others = decode_from-IsSummary w n m left (suc i) b k in
            ground (arith, first, others)
      ]
    ]

record Passes (n : ℕ) (w : Bool) (m : Bytes) (ss : List AnnounceSummary) : Type 0 where
  read : decode_from w n m (count_of m) 0 ≡ some ss
  few : count_of m ≤ maximum_entries
  size : length m ≡ 3 + count_of m * n

decode_entries-Passes :
    (kind : AnnounceWireMessage) (n : ℕ) (w : Bool) (m : Bytes) {ss : List AnnounceSummary}
    → decode_entries kind n w m ≡ some ss
    → Passes n w m ss
unfolding decode_entries
decode_entries-Passes kind n w m e = ground arith

decode_entries-IsSummary :
    (kind : AnnounceWireMessage) (n : ℕ) (w : Bool) (m : Bytes) {ss : List AnnounceSummary}
    → AreBytes m
    → decode_entries kind n w m ≡ some ss
    → All IsSummary ss × (length ss ≤ maximum_entries) × (length m ≡ 3 + length ss * n)
decode_entries-IsSummary kind n w m b e =
    let p = decode_entries-Passes kind n w m e in
    let (valid, count) = decode_from-IsSummary w n m (count_of m) 0 b p.read in
    (valid, omega (arith, p.few), p.size ∙ ap (λ k. 3 + k * n) (sym count))

-- Whatever bytes a peer sends, an offer that decodes holds at most 64 summaries, each with a
-- fingerprint of 8 bytes, an acceptable mod name and a version of 64 bits, and the message is
-- exactly as long as they need.
decode_offer-IsSummary :
    (m : Bytes) {ss : List AnnounceSummary}
    → AreBytes m
    → decode_offer m ≡ some ss
    → All IsSummary ss
      × (length ss ≤ maximum_entries)
      × (length m ≡ 3 + length ss * offer_entry_bytes)
unfolding decode_offer
decode_offer-IsSummary m = decode_entries-IsSummary offer offer_entry_bytes true m

-- Whatever bytes a peer sends, a want that decodes holds at most 64 summaries, each with a
-- fingerprint of 8 bytes, an acceptable mod name and a version of 64 bits, and is as long as they need.
decode_want-IsSummary :
    (m : Bytes) {ss : List AnnounceSummary}
    → AreBytes m
    → decode_want m ≡ some ss
    → All IsSummary ss
      × (length ss ≤ maximum_entries)
      × (length m ≡ 3 + length ss * want_entry_bytes)
unfolding decode_want
decode_want-IsSummary m = decode_entries-IsSummary want want_entry_bytes false m
