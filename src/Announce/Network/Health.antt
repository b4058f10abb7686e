-- ===== src/Announce/Network/Health.antt =====
-- However the events of all connections are interleaved.

use wgrd_mod_manager.Common.{subst, inl, inr, List, [], ◌∷◌, ◌++◌, Bool-cases, All}
use wgrd_mod_manager.Announce.Connection.{Connection, close}
use wgrd_mod_manager.Announce.Exchange.{IAnnounces, AnnounceExchange}
use wgrd_mod_manager.Announce.Exchange.Counts.{IsOrderly, closes, step, run-IsOrderly}
use wgrd_mod_manager.Announce.Connection.Calls.{Reaches, Reaches-nil, Reaches-one, event-Reaches}
use wgrd_mod_manager.Trust.Registry.{IKeyRegistry}
use wgrd_mod_manager.Announce.Receiver.{SignatureCheck, AnnounceReceiver}
use wgrd_mod_manager.Announce.Receiver.Invariant.{IsSound}
use wgrd_mod_manager.Announce.Exchange.Serving.{receiver_announces, run-IsSound}
use wgrd_mod_manager.Announce.Connection.Bounds.{
  IsConnection, new_connection-IsConnection, event-IsConnection,
}
use wgrd_mod_manager.Announce.Network.{
  Network, Step, connects, acts, leaves, calls, Steps, here, then_step,
}

All-replaced :
    {A : Type 0} (P : A → Type 0) (before : List A) {x y : A} (after : List A)
    → (P x → P y)
    → All P (before ++ x ∷ after)
    → All P (before ++ y ∷ after)
All-replaced P [] after f h = (f h.0, h.1)
All-replaced P (b ∷ before) after f h = (h.0, All-replaced P before after f h.1)

All-removed :
    {A : Type 0} (P : A → Type 0) (before : List A) (x : A) (after : List A)
    → All P (before ++ x ∷ after)
    → All P (before ++ after)
All-removed P [] x after h = h.1
All-removed P (b ∷ before) x after h = (h.0, All-removed P before x after h.1)

module _ (registry : IKeyRegistry) (sodium : SignatureCheck) where
  abbrev i : IAnnounces AnnounceReceiver
  i = receiver_announces registry sodium

  pub record IsHealthy (n : Network AnnounceReceiver) : Type 0 where
    pub orderly : IsOrderly n.exchange
    pub sound : IsSound registry sodium n.exchange.announces
    pub open_ : All IsConnection n.connections

  Reaches-IsOrderly :
      (x y : AnnounceExchange AnnounceReceiver) → Reaches i x y → IsOrderly x → IsOrderly y
  Reaches-IsOrderly x y r v = subst IsOrderly r.arrives (run-IsOrderly i x r.calls v)

  Reaches-IsSound :
      (x y : AnnounceExchange AnnounceReceiver)
      → Reaches i x y
      → IsSound registry sodium x.announces
      → IsSound registry sodium y.announces
  Reaches-IsSound x y r v =
      subst (λ z. IsSound registry sodium z.announces) r.arrives
        (run-IsSound registry sodium x r.calls r.readable v)

  Reaches-close :
      (c : Connection) (x : AnnounceExchange AnnounceReceiver) → Reaches i x (close i c x)
  unfolding close step
  Reaches-close c x = elim (Bool-cases c.counted) [
    | inl e ↦ rw (e, close) (Reaches-one i x closes tt)
    | inr e ↦ rw (e, close) (Reaches-nil i x)
  ]

  Step-IsHealthy : (n m : Network AnnounceReceiver) → Step i n m → IsHealthy n → IsHealthy m
  Step-IsHealthy n m (connects x cs peer) v = record {
    orderly = v.orderly;
    sound = v.sound;
    open_ = (new_connection-IsConnection peer, v.open_);
  }
  Step-IsHealthy n m (acts x before after c e b) v =
      let r = event-Reaches i c x e b in
      record {
        orderly = Reaches-IsOrderly x _ r v.orderly;
        sound = Reaches-IsSound x _ r v.sound;
        open_ = All-replaced IsConnection before after (event-IsConnection i c x e) v.open_;
      }
  Step-IsHealthy n m (leaves x before after c) v =
      let r = Reaches-close c x in
      record {
        orderly = Reaches-IsOrderly x _ r v.orderly;
        sound = Reaches-IsSound x _ r v.sound;
        open_ = All-removed IsConnection before c after v.open_;
      }
  Step-IsHealthy n m (calls x cs call b) v =
      let r = Reaches-one i x call b in
      record {
        orderly = Reaches-IsOrderly x _ r v.orderly;
        sound = Reaches-IsSound x _ r v.sound;
        open_ = v.open_;
      }

  -- From a healthy network, whatever octets the peers send and in whatever order the events of all
  -- connections come, connections that open and close included: every announce retained is
  -- verified and stands under its identifier, at most 4096 of them; each record received was
  -- counted as accepted, rejected or throttled; at most 512 budgets are kept, each in range; and
  -- no connection has more than 128 wants outstanding or sent a frame longer than the protocol allows.
  pub Steps-IsHealthy : (n m : Network AnnounceReceiver) → Steps i n m → IsHealthy n → IsHealthy m
  Steps-IsHealthy n m here v = v
  Steps-IsHealthy n m (then_step k _ s t) v = Step-IsHealthy k m t (Steps-IsHealthy n k s v)
