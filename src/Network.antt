-- ===== src/Network.antt =====
-- network/: what a node does with the messages of its peers.
pub mod Framing
pub mod Server
pub mod Worker
pub mod Gossip
pub mod Wire
