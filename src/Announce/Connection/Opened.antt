-- ===== src/Announce/Connection/Opened.antt =====
-- How the count of peers follows the connections.
use wgrd_mod_manager.Common.{
  ℕ, ◌+◌, ◌^◌, ◌<◌, ◌≡◌, Bool, true, ◌&&◌, ◌||◌, List, [], ◌∷◌, arith, ltb, leb, length, All, Bytes,
}
use wgrd_mod_manager.Announce.Exchange.{
  IAnnounces, bump_32, AnnounceExchange, peer_opened, peer_closed, count_offer_sent, note_peer,
}
use wgrd_mod_manager.Announce.Connection.{
  Connection, Handshake, send, send_offer, on_handshake, close,
}

-- the handshakes that the handler does not refuse
abbrev pub is_accepted : Handshake → Bool
is_accepted h = h.is_dictionary && h.has_messages && (ltb 0 h.message_id && leb h.message_id 255)

module _ {S : Type 0} (i : IAnnounces S) where
  -- the same peer sends one handshake after the other
  pub greet_all :
      Connection → AnnounceExchange S → ℕ → List Handshake → Connection × AnnounceExchange S
  greet_all c x now [] = (c, x)
  greet_all c x now (h ∷ hs) = let (c', x') = (on_handshake i c x h now).1 in greet_all c' x' now hs

  note_peer-peers :
      (x : AnnounceExchange S) (address : Bytes) (port : ℕ)
      → (note_peer x address port).status.peers ≡ x.status.peers
  unfolding note_peer
  note_peer-peers x address port = ground arith

  greeted_once :
      (c : Connection) (x : AnnounceExchange S) (h : Handshake) (now : ℕ)
      → is_accepted h ≡ true
      → ((on_handshake i c x h now).1.1.status.peers ≡ bump_32 x.status.peers)
        × ((on_handshake i c x h now).1.0.counted ≡ true)
  unfolding on_handshake send_offer count_offer_sent peer_opened send
  greeted_once c x h now a = ground (arith, note_peer-peers x c.peer h.port)

  greet_all_peers :
      (c : Connection) (x : AnnounceExchange S) (now : ℕ) (hs : List Handshake)
      → All (λ h. is_accepted h ≡ true) hs
      → x.status.peers + length hs < 2 ^ 32
      → ((greet_all c x now hs).1.status.peers ≡ x.status.peers + length hs)
        × ((c.counted || ltb 0 (length hs)) ≡ (greet_all c x now hs).0.counted)
  unfolding greet_all
  greet_all_peers c x now [] a h = ground arith
  greet_all_peers c x now (g ∷ hs) a h =
      let (p, q) = greeted_once c x g now a.0 in
      let (c', x') = (on_handshake i c x g now).1 in
      ground (arith, p, q, greet_all_peers c' x' now hs a.1)

  -- A peer that sends several handshakes over one connection stays in the count of peers when the
  -- connection closes: each accepted handshake counts it once more, and the close takes away one.
  pub close-greet_all :
      (c : Connection) (x : AnnounceExchange S) (now : ℕ) (h : Handshake) (hs : List Handshake)
      → All (λ h. is_accepted h ≡ true) (h ∷ hs)
      → x.status.peers + length (h ∷ hs) < 2 ^ 32
      → (close i (greet_all c x now (h ∷ hs)).0 (greet_all c x now (h ∷ hs)).1).status.peers
        ≡ x.status.peers + length hs
  unfolding close peer_closed
  close-greet_all c x now h hs a l = ground (arith, greet_all_peers c x now (h ∷ hs) a l)
