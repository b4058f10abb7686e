-- ===== src/Announce/Exchange/Peers.antt =====
-- What is asked of a peer that offers.
use wgrd_mod_manager.Common.{
  ℕ, zero, suc, ◌+◌, ◌≡◌, refl, sym, ◌∙◌, inl, inr, Bool, true, false, List, [], ◌∷◌, ◌++◌,
  append-nil, append_assoc, arith, leb, Bool-cases, length, take, keep, length-append,
}
use wgrd_mod_manager.Announce.Summary.{AnnounceSummary}
use wgrd_mod_manager.Announce.Wire.{maximum_entries}
use wgrd_mod_manager.Announce.Exchange.{IAnnounces, AnnounceExchange, missing_from, missing}

module _ {S : Type 0} (i : IAnnounces S) where
  -- `WouldAccept` of a summary
  abbrev pub is_wanted : S → AnnounceSummary → Bool
  is_wanted s summary = i.would_take s summary.publisher summary.mod_name summary.version

  missing_from-keep :
      (s : S) (wanted offered : List AnnounceSummary) (room : ℕ)
      → length wanted + room ≡ maximum_entries
      → missing_from i s wanted offered ≡ wanted ++ take room (keep (is_wanted s) offered)
  unfolding missing_from
  missing_from-keep s wanted [] zero h = sym (append-nil wanted)
  missing_from-keep s wanted [] (suc room) h = sym (append-nil wanted)
  missing_from-keep s wanted (o ∷ offered) zero h =
      rw (full, missing_from) (sym (append-nil wanted))
    where
      full : leb maximum_entries (length wanted) ≡ true
      full = ground arith
  missing_from-keep s wanted (o ∷ offered) (suc room) h = elim (Bool-cases (is_wanted s o)) [
    | inl w ↦
        rw (below, missing_from)
          (rw w (
            missing_from-keep s (wanted ++ o ∷ []) offered room
              (omega (arith, length-append wanted (o ∷ [])))
            ∙ append_assoc wanted (o ∷ []) _))
    | inr w ↦ rw (below, missing_from) (rw w (missing_from-keep s wanted offered (suc room) h))
  ]
    where
      below : leb maximum_entries (length wanted) ≡ false
      below = ground arith

  -- `Missing` answers with exactly the first 64 of the offered summaries that the catalogue would
  -- take, in the order in which they were offered.
  missing-keep :
      (x : AnnounceExchange S) (offered : List AnnounceSummary)
      → missing i x offered ≡ take maximum_entries (keep (is_wanted x.announces) offered)
  unfolding missing
  missing-keep x offered = missing_from-keep x.announces [] offered maximum_entries refl
