-- ===== src/Transfer/FetchState/Confirm.antt =====
-- When a fetch is complete.
use wgrd_mod_manager.Common.{
  ℕ, ◌+◌, ◌≤◌, ◌≡◌, refl, ◌∙◌, inl, inr, Bool, true, false, ◌&&◌, List, [], ◌∷◌, arith, ltb, leb,
  Bool-cases, length, All,
}
use wgrd_mod_manager.Transfer.FetchState.{
  complete, is_busy, complete_confirmations, FetchState, Poll, is_fetched, update,
}

abbrev pub is_complete : FetchState → Bool
is_complete s = elim s.fetch.phase [ complete ↦ true | _ ↦ false ]

-- The poll finds everything fetched and written.
abbrev pub is_settled : ℕ → Poll → Bool
is_settled wanted_bytes p = p.writes_settled && is_fetched wanted_bytes p

update_all : FetchState → List Poll → FetchState
update_all s [] = s
update_all s (p ∷ ps) = update_all (update s p) ps

-- An `Update` completes a fetch only where it was prioritised, three settled polls were counted
-- before and the poll is a settled one itself; a poll that is not settled sets the count back to 0.
update_lem :
    (s : FetchState) (p : Poll)
    → is_busy s.fetch ≡ true
    → (is_complete (update s p) ≡ true
        → (is_settled s.fetch.wanted_bytes p ≡ true)
          × (s.prioritised ≡ true)
          × (complete_confirmations ≤ s.settled_polls))
      × (is_settled s.fetch.wanted_bytes p ≡ false → (update s p).settled_polls ≡ 0)
unfolding update
update_lem s p h = ground arith

ignored : (s : FetchState) (p : Poll) → is_busy s.fetch ≡ false → update s p ≡ s
unfolding update
ignored s p h = rw (h, update) refl

update_all-idle : (s : FetchState) (ps : List Poll) → is_busy s.fetch ≡ false → update_all s ps ≡ s
unfolding update_all
update_all-idle s [] h = refl
update_all-idle s (p ∷ ps) h = rw (ignored s p h) (update_all-idle s ps h)

counts :
    (s : FetchState) (p : Poll)
    → is_busy s.fetch ≡ true
    → s.prioritised ≡ true
    → is_settled s.fetch.wanted_bytes p ≡ true
    → ltb s.settled_polls complete_confirmations ≡ true
    → (is_busy (update s p).fetch ≡ true)
      × ((update s p).prioritised ≡ true)
      × ((update s p).settled_polls ≡ s.settled_polls + 1)
      × ((update s p).fetch.wanted_bytes ≡ s.fetch.wanted_bytes)
unfolding update
counts s p b r h e = ground arith

completes :
    (s : FetchState) (p : Poll)
    → is_busy s.fetch ≡ true
    → s.prioritised ≡ true
    → is_settled s.fetch.wanted_bytes p ≡ true
    → ltb s.settled_polls complete_confirmations ≡ false
    → (update s p).fetch.phase ≡ complete
unfolding update
completes s p b r h e = ground arith

-- A prioritised fetch that is under way, with at most three settled polls counted, is complete
-- after further settled polls exactly if there are four of them with those counted before.
update_all_complete :
    (s : FetchState) (ps : List Poll)
    → is_busy s.fetch ≡ true
    → s.prioritised ≡ true
    → s.settled_polls ≤ complete_confirmations
    → All (λ p. is_settled s.fetch.wanted_bytes p ≡ true) ps
    → is_complete (update_all s ps) ≡ leb (complete_confirmations + 1) (s.settled_polls + length ps)
unfolding update_all
update_all_complete s [] b r m h = ground arith
update_all_complete s (p ∷ ps) b r m h =
    elim (Bool-cases (ltb s.settled_polls complete_confirmations)) [
      | inl e ↦
          let (b', r', n, w) = counts s p b r h.0 e in
          update_all_complete (update s p) ps b' r' (ground arith) (rw w h.1) ∙ ground (arith, n)
      | inr e ↦
          let c = completes s p b r h.0 e in
          rw (update_all-idle (update s p) ps (ground (arith, c))) (ground (arith, c))
    ]
