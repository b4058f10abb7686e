-- ===== src/Tests/Network.antt =====
-- Connections, and all of them together.

use wgrd_mod_manager.Tests.Data.{
  exchange, publisher, registry, sodium, announce, summary, announce_record, receiver,
  receiver-IsSound, announces, peer, other_peer, exchange-IsOrderly, holder, holder-IsSound,
}
use wgrd_mod_manager.Announce.Receiver.{AnnounceReceiver, identity, would_accept}
use wgrd_mod_manager.Announce.Network.Health.{IsHealthy, Steps-IsHealthy}
use wgrd_mod_manager.Announce.Network.Delivery.{asked, told}
use wgrd_mod_manager.Announce.Network.Frames.{want_frame, record_frame, delivery}
use wgrd_mod_manager.Announce.Connection.{
  local_message_id, Connection, new_connection, Handshake, handle_want, close,
}
use wgrd_mod_manager.Common.{◌≡◌, refl, true, false, some, [], ◌∷◌, arith, codes, same}
use wgrd_mod_manager.Announce.Wants.{prune}
use wgrd_mod_manager.Common.Table.{find, insert, erase_if}
use wgrd_mod_manager.Domain.FixedBytes.{to_hex}
use wgrd_mod_manager.Announce.Wire.{encode_want, encode_record}
use wgrd_mod_manager.Announce.Summary.{identifier_of, identifier}
use wgrd_mod_manager.Announce.Codec.Agreement.{summary_of}
use wgrd_mod_manager.Announce.Exchange.{ensure_budget, AnnounceExchange}
use wgrd_mod_manager.Announce.Budget.{second, fresh, consume}
use wgrd_mod_manager.Trust.Registry.{key_registry}
use wgrd_mod_manager.Announce.Wants.Laws.{IsBounded}
use wgrd_mod_manager.Announce.Connection.Cases.{Event, handshakes, extends, event}
use wgrd_mod_manager.Announce.Connection.Asked.{Takes, event-Takes}
use wgrd_mod_manager.Announce.Connection.Opened.{greet_all, close-greet_all}
use wgrd_mod_manager.Announce.Network.{Network, connects, acts, leaves, here, then_step}

-- a connection that has asked for the announce
abbrev asking : Connection
asking = record (new_connection peer) { wants = record { pending = (identifier summary, 0) ∷ [] } }

asking-IsBounded : IsBounded asking.wants
asking-IsBounded = record { ascends = (tt, tt); size_max = omega arith }

abbrev arrives : Event
arrives = extends 203 local_message_id (encode_record announce_record) second

abbrev greeting : Handshake
greeting = record {
  is_dictionary = true;
  has_messages = true;
  message_id = 3;
  revision = 1;
  port = 6881;
}

abbrev start : Network AnnounceReceiver
start = record { exchange = exchange; connections = [] }

-- a peer connects, greets and leaves
abbrev ended : Network AnnounceReceiver
ended = record {
  exchange =
      close announces
        (event announces (new_connection peer) exchange (handshakes greeting second)).0
        (event announces (new_connection peer) exchange (handshakes greeting second)).1;
  connections = [];
}

Steps-IsHealthy_example : IsHealthy registry sodium ended
Steps-IsHealthy_example =
    Steps-IsHealthy registry sodium start ended
      (then_step _ _
        (then_step _ _ (then_step _ _ here (connects exchange [] peer))
          (acts exchange [] [] (new_connection peer) (handshakes greeting second) tt))
        (leaves (event announces (new_connection peer) exchange (handshakes greeting second)).1 []
          [] (event announces (new_connection peer) exchange (handshakes greeting second)).0))
      record { orderly = exchange-IsOrderly; sound = receiver-IsSound; open_ = tt }

event-Takes_example : Takes announces asking exchange (event announces asking exchange arrives)
event-Takes_example = event-Takes announces asking exchange arrives asking-IsBounded

close-greet_all_example :
    (close announces
      (greet_all announces (new_connection peer) exchange second (greeting ∷ greeting ∷ [])).0
      (greet_all announces
        (new_connection peer)
        exchange
        second
        (greeting ∷ greeting ∷ [])).1).status.peers
    ≡ 1
close-greet_all_example =
    close-greet_all announces (new_connection peer) exchange second greeting (greeting ∷ [])
      (refl, (refl, tt)) (omega arith)

-- a session that retains the announce
abbrev holding : AnnounceExchange AnnounceReceiver
holding = record exchange { announces = holder }

exchange-ensure_budget :
    ensure_budget exchange.budgets other_peer second ≡ some (fresh, (other_peer, fresh) ∷ [])
unfolding ensure_budget find insert
exchange-ensure_budget = refl

fresh-consume : (consume fresh second).0 ≡ true
unfolding consume
fresh-consume = refl

receiver-would_accept : would_accept registry sodium receiver publisher (codes "abc") 2 ≡ true
unfolding would_accept find key_registry same
receiver-would_accept = refl

holding-find : find (identity announce) holding.announces.retained ≡ some announce
unfolding find same identifier_of to_hex
holding-find = refl

-- two sessions that have each other's handshake
abbrev to_holder : Connection
to_holder = record (new_connection other_peer) { remote_message_id = 3 }

abbrev to_asker : Connection
to_asker = record (new_connection peer) { remote_message_id = 3 }

delivery_example :
    ((asked registry sodium to_holder exchange announce second).0.sent ≡ want_frame 3 announce ∷ [])
    × ((handle_want announces to_asker holding
          (encode_want (summary_of announce ∷ []))
          second).0.sent
        ≡ record_frame 3 announce ∷ [])
    × (find
          (identity announce)
          (told registry sodium to_holder exchange announce second second).1.announces.retained
        ≡ some announce)
    × ((told registry sodium to_holder exchange announce second second).0.disconnected ≡ false)
unfolding prune erase_if
delivery_example =
    delivery registry sodium to_asker to_holder holding exchange announce second second second
      (fresh, (other_peer, fresh) ∷ []) (omega arith) (omega arith) holder-IsSound holding-find refl
      record { ascends = tt; size_max = omega arith } (omega arith) receiver-would_accept
      exchange-ensure_budget fresh-consume
