-- ===== src/Announce.antt =====
-- The announce gossip: `downloader/announce` and `manager/announce`.
pub mod Budget
pub mod Summary
pub mod Wants
pub mod Wire
pub mod Codec
pub mod Receiver
pub mod Exchange
pub mod Connection
pub mod Network
