-- ===== src/Announce/Network.antt =====
-- All connections of a session around the exchange that they share
-- (src/downloader/announce/AnnounceGossipTorrentPlugin.cpp makes a connection's plugin with it).
-- Each step is one event of one connection, or one call of the session.
pub mod Health
pub mod Delivery
pub mod Frames
use wgrd_mod_manager.Common.{List, ◌∷◌, ◌++◌, Bytes, AreBytes}
use wgrd_mod_manager.Announce.Exchange.{IAnnounces, AnnounceExchange}
use wgrd_mod_manager.Announce.Exchange.Counts.{Call, step}
use wgrd_mod_manager.Announce.Exchange.Serving.{IsReadable}
use wgrd_mod_manager.Announce.Connection.{Connection, new_connection, close}
use wgrd_mod_manager.Announce.Connection.Cases.{Event, event, OfBody}

pub record Network (S : Type 0) : Type 0 where
  pub exchange : AnnounceExchange S
  pub connections : List Connection

module _ {S : Type 0} (i : IAnnounces S) where
  pub data Step : Network S → Network S → Type 0 where
    connects :
        (x : AnnounceExchange S) (cs : List Connection) (peer : Bytes)
        → Step
            (record { exchange = x; connections = cs })
            (record { exchange = x; connections = new_connection peer ∷ cs })
    acts :
        (x : AnnounceExchange S) (before after : List Connection) (c : Connection) (e : Event)
        → OfBody AreBytes e
        → Step
            (record { exchange = x; connections = before ++ c ∷ after })
            (record {
              exchange = (event i c x e).1;
              connections = before ++ (event i c x e).0 ∷ after;
            })
    leaves :
        (x : AnnounceExchange S) (before after : List Connection) (c : Connection)
        → Step
            (record { exchange = x; connections = before ++ c ∷ after })
            (record { exchange = close i c x; connections = before ++ after })
    calls :
        (x : AnnounceExchange S) (cs : List Connection) (call : Call)
        → IsReadable call
        → Step
            (record { exchange = x; connections = cs })
            (record { exchange = step i x call; connections = cs })

  -- What the session gets to from a network.
  pub data Steps (n : Network S) : Network S → Type 0 where
    here : Steps n n
    then_step : (m k : Network S) → Steps n m → Step m k → Steps n k
