-- ===== src/Tests.antt =====
-- The theorems at concrete inputs, with small stand-ins for the crates.
mod Toy
mod Merkle
mod Ledger
mod Replay
mod Theft
mod Chain
mod Node
mod NewBlocks
mod Forged
mod Gossip
mod Mining
mod Bytes
mod Wire
mod Queries
mod Client
mod Requests
