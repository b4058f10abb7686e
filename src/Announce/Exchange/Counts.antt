-- ===== src/Announce/Exchange/Counts.antt =====
-- Every method of the exchange keeps the counters, the budgets and the noted peers in order,
-- in whatever order the connections call them.
use wgrd_mod_manager.Common.{
  ℕ, ◌+◌, ◌%◌, ◌^◌, ◌≤◌, ◌<◌, ◌≡◌, refl, ◌≢◌, inl, inr, false, ◌||◌, List, [], ◌∷◌, arith, ltb, leb,
  ◌==◌, Bool-cases, Option-cases, length, All, length-append, All-append, Bytes,
}
use wgrd_mod_manager.Announce.Summary.{AnnounceSummary}
use wgrd_mod_manager.Announce.Budget.Bounds.{penalise-IsValid}
use wgrd_mod_manager.Announce.Exchange.{
  IAnnounces, GossipStatus, maximum_tracked_peers, AnnounceExchange, is_noted, penalise_peer,
  peer_opened, peer_closed, count_offer_sent, count_offer_received, use_listen_port, note_peer,
  take_noted_peers, use_control_hashes, request_refresh, serve, receive, ingest,
}
use wgrd_mod_manager.Announce.Exchange.Budgets.{
  AreBudgets, ensure_budget-Ensured, charge-AreBudgets, ingest-AreBudgets,
}

-- Each record received was accepted, rejected or throttled, up to the wrap of the counters.
abbrev pub IsCounted : GossipStatus → Type 0
IsCounted s =
    s.records_received ≡ (s.records_accepted + s.records_rejected + s.peers_throttled) % 2 ^ 64

-- a noted peer has an address and a port
abbrev pub IsReachable : Bytes × ℕ → Type 0
IsReachable p = (length p.0 ≢ 0) × (p.1 ≢ 0)

pub record IsOrderly {S : Type 0} (x : AnnounceExchange S) : Type 0 where
  pub counted : IsCounted x.status
  pub budgets : AreBudgets x.budgets
  pub noted_max : length x.noted ≤ maximum_tracked_peers
  pub reachable : All IsReachable x.noted

-- The calls that the connections and the session make.
pub data Call : Type 0 where
  ingests : Bytes → Bytes → ℕ → Call
  penalises : Bytes → ℕ → Call
  serves : AnnounceSummary → Call
  opens closes sends_offer receives_offer takes_noted refreshes : Call
  notes : Bytes → ℕ → Call
  uses_port : ℕ → Call
  uses_hashes : Bytes → Call

module _ {S : Type 0} where
  penalise_peer-IsOrderly :
      (x : AnnounceExchange S) (peer : Bytes) (now : ℕ)
      → IsOrderly x
      → IsOrderly (penalise_peer x peer now)
  unfolding penalise_peer
  penalise_peer-IsOrderly x peer now v = elim (ensure_budget-Ensured x.budgets peer now v.budgets) [
    | inl e ↦
        rw (e, penalise_peer)
          (record {
            counted = v.counted;
            budgets = v.budgets;
            noted_max = v.noted_max;
            reachable = v.reachable;
          })
    | inr (r, e, h) ↦
        rw (e, penalise_peer)
          (record {
            counted = v.counted;
            budgets =
                charge-AreBudgets r.1 peer r.0 _ h.sound h.held
                  (penalise-IsValid r.0 now h.in_range);
            noted_max = v.noted_max;
            reachable = v.reachable;
          })
  ]

  note_peer-IsOrderly :
      (x : AnnounceExchange S) (address : Bytes) (port : ℕ)
      → IsOrderly x
      → IsOrderly (note_peer x address port)
  unfolding note_peer
  note_peer-IsOrderly x address port v = elim (Bool-cases (length address == 0 || port == 0)) [
    | inl e ↦ rw (e, note_peer) v
    | inr e ↦ elim (Bool-cases (leb maximum_tracked_peers (length x.noted))) [
      | inl f ↦ rw (e, note_peer) (rw f v)
      | inr f ↦ elim (Bool-cases (is_noted x.noted address port)) [
        | inl g ↦ rw (e, note_peer) (rw f (rw g v))
        | inr g ↦
            rw (e, note_peer)
              (rw f (
                rw g (record {
                  counted = v.counted;
                  budgets = v.budgets;
                  noted_max = omega (arith, room f, length-append x.noted ((address, port) ∷ []));
                  reachable =
                      All-append IsReachable x.noted ((address, port) ∷ []) v.reachable
                        (named e, tt);
                })))
      ]
    ]
  ]
    where
      room :
          leb maximum_tracked_peers (length x.noted) ≡ false
          → length x.noted < maximum_tracked_peers
      room h = ground arith

      named : (length address == 0 || port == 0) ≡ false → IsReachable (address, port)
      named h = (λ e. ground arith, λ e. ground arith)

  -- the counters of offers and of peers
  others-IsOrderly :
      (x y : AnnounceExchange S)
      → IsOrderly x
      → y.budgets ≡ x.budgets
      → y.noted ≡ x.noted
      → y.status.records_received ≡ x.status.records_received
      → y.status.records_accepted ≡ x.status.records_accepted
      → y.status.records_rejected ≡ x.status.records_rejected
      → y.status.peers_throttled ≡ x.status.peers_throttled
      → IsOrderly y
  others-IsOrderly x y v b n r a j t = record {
    counted = omega (arith, v.counted);
    budgets = rw b v.budgets;
    noted_max = rw n v.noted_max;
    reachable = rw n v.reachable;
  }

module _ {S : Type 0} (i : IAnnounces S) where
  ingest_counts :
      (x : AnnounceExchange S) (peer record_ : Bytes) (now : ℕ)
      → IsCounted x.status
      → IsCounted (ingest i x peer record_ now).1.status
        × ((ingest i x peer record_ now).1.noted ≡ x.noted)
  unfolding ingest receive
  ingest_counts x peer record_ now v = ground arith

  serve_kept :
      (x : AnnounceExchange S) (wanted : AnnounceSummary)
      → IsOrderly x
      → IsOrderly (serve i x wanted).1
  unfolding serve
  serve_kept x wanted v =
      elim (Option-cases (i.find_record x.announces wanted.publisher wanted.mod_name)) [
        | inl e ↦ rw (e, serve) v
        | inr (b, e) ↦ rw (e, serve) (others-IsOrderly x _ v refl refl refl refl refl refl)
      ]

  unfoldable pub step : AnnounceExchange S → Call → AnnounceExchange S
  step x (ingests peer record_ now) = (ingest i x peer record_ now).1
  step x (penalises peer now) = penalise_peer x peer now
  step x (serves wanted) = (serve i x wanted).1
  step x opens = peer_opened x
  step x closes = peer_closed x
  step x sends_offer = count_offer_sent x
  step x receives_offer = count_offer_received x
  step x takes_noted = (take_noted_peers x).1
  step x refreshes = request_refresh x
  step x (notes address port) = note_peer x address port
  step x (uses_port port) = use_listen_port x port
  step x (uses_hashes hashes) = use_control_hashes x hashes

  unfoldable pub run : AnnounceExchange S → List Call → AnnounceExchange S
  run x [] = x
  run x (c ∷ cs) = run (step x c) cs

  step-IsOrderly : (x : AnnounceExchange S) (c : Call) → IsOrderly x → IsOrderly (step x c)
  unfolding step peer_opened peer_closed count_offer_sent count_offer_received take_noted_peers
      request_refresh use_listen_port use_control_hashes
  step-IsOrderly x (ingests peer record_ now) v =
      let (c, n) = ingest_counts x peer record_ now v.counted in
      record {
        counted = c;
        budgets = ingest-AreBudgets i x peer record_ now v.budgets;
        noted_max = rw n v.noted_max;
        reachable = rw n v.reachable;
      }
  step-IsOrderly x (penalises peer now) v = penalise_peer-IsOrderly x peer now v
  step-IsOrderly x (serves wanted) v = serve_kept x wanted v
  step-IsOrderly x opens v = others-IsOrderly x _ v refl refl refl refl refl refl
  step-IsOrderly x closes v = elim (Bool-cases (ltb 0 x.status.peers)) [
    | inl e ↦ rw (e, peer_closed) (others-IsOrderly x _ v refl refl refl refl refl refl)
    | inr e ↦ rw (e, peer_closed) v
  ]
  step-IsOrderly x sends_offer v = others-IsOrderly x _ v refl refl refl refl refl refl
  step-IsOrderly x receives_offer v = others-IsOrderly x _ v refl refl refl refl refl refl
  step-IsOrderly x takes_noted v = record {
    counted = v.counted;
    budgets = v.budgets;
    noted_max = omega arith;
    reachable = tt;
  }
  step-IsOrderly x refreshes v = others-IsOrderly x _ v refl refl refl refl refl refl
  step-IsOrderly x (notes address port) v = note_peer-IsOrderly x address port v
  step-IsOrderly x (uses_port port) v = others-IsOrderly x _ v refl refl refl refl refl refl
  step-IsOrderly x (uses_hashes hashes) v = others-IsOrderly x _ v refl refl refl refl refl refl

  -- From an exchange in order, after any interleaving of the calls of all connections: each record
  -- received was counted as accepted, rejected or throttled, at most 512 budgets are kept, none
  -- twice and each in range, and at most 512 peers are noted, each with an address and a port.
  pub run-IsOrderly : (x : AnnounceExchange S) (cs : List Call) → IsOrderly x → IsOrderly (run x cs)
  unfolding run
  run-IsOrderly x [] v = v
  run-IsOrderly x (c ∷ cs) v = run-IsOrderly (step x c) cs (step-IsOrderly x c v)
