-- ===== src/Client.antt =====
-- main.rs: the client as a whole. Its threads share the chain, the mempool and the orphan buffer;
-- the miner's thread keeps a block of its own between two rounds, and finished blocks wait in a
-- channel. A step is what one thread does to the shared state while it holds the locks for it.
pub mod Soundness
pub mod Interleaving
pub mod Progress
pub mod Locks
use final.Base.{ℕ, ◌≡◌, ◌≢◌, none, List, [], ◌∷◌, ◌++◌, Run, ok, ◌>>=◌}
use final.Data.{H256, Block, Message}
use final.External.{External}
use final.Block.{hash}
use final.Blockchain
use final.Blockchain.{Blockchain, get_block}
use final.Network.Worker.{Worker, Sent, broadcast, handle_message, handle_new_block}
use final.Miner
use final.Miner.{Miner, OperatingState, Received, Next, poll, chain_parent, mine}
use final.Miner.Worker.{forward_block}

-- The shared state; the miner's variables `genesis_block` and `parent_block`; and, in the miner's
-- field `finished_blocks`, the blocks that its worker has not received.
pub record Client : Type 0 where
  pub miner : Miner
  pub orphan_buffer : List Block
  pub sent : List Sent
  pub genesis_block : Block
  pub parent_block : Block

-- What a network worker shares with the others.
abbrev pub worker_view : Client → Worker
worker_view c = record {
  blockchain = c.miner.blockchain;
  orphan_buffer = c.orphan_buffer;
  mempool = c.miner.mempool;
  sent = c.sent;
}

abbrev pub with_worker : Client → Worker → Client
with_worker c w = record c {
  miner = record (c.miner) { blockchain = w.blockchain; mempool = w.mempool };
  orphan_buffer = w.orphan_buffer;
  sent = w.sent;
}

-- The start: a new chain, an empty mempool, and a miner that has read its genesis block.
abbrev pub started : Blockchain → Block → Client
started chain genesis_block = record {
  miner = Miner.new chain [];
  orphan_buffer = [];
  sent = [];
  genesis_block = genesis_block;
  parent_block = genesis_block;
}

-- A step of one thread. A message of blocks may be handled in one go, or a block at a time with
-- other threads between, as far as the lock on the mempool lets them; what the worker then announces
-- changes none of the shared state and is left out.
pub data Step (x : External) (c c' : Client) : Type 0 where
  -- a network worker: a message, or one block of a message
  message :
      (msg : Message) (w : Worker)
      → handle_message x msg (worker_view c) ≡ ok w
      → c' ≡ with_worker c w
      → Step x c c'
  new_block :
      (b : Block) (w : Worker)
      → get_block c.miner.blockchain (hash x b) ≡ none
      → handle_new_block x b (worker_view c) ≡ ok w
      → c' ≡ with_worker c w
      → Step x c c'
  -- the miner: it reads the tip's block, reacts to a signal, or mines on the block that it read
  look :
      (p : Block)
      → chain_parent x c.miner.blockchain ≡ ok p
      → c' ≡ record c { parent_block = p }
      → Step x c c'
  control :
      (received : Received) (polled : OperatingState × Next)
      → poll c.miner.operating_state received ≡ ok polled
      → c' ≡ record c { miner = record (c.miner) { operating_state = polled.0 } }
      → Step x c c'
  try_nonce :
      (nonce timestamp : ℕ) (root : H256) (m : Miner)
      → mine x c.genesis_block nonce timestamp root c.parent_block c.miner ≡ ok m
      → c' ≡ record c { miner = m }
      → Step x c c'
  -- the miner's worker: it receives the first of the finished blocks
  forward :
      (b : Block) (rest : List Block) (forwarded : Blockchain × Message)
      → c.miner.finished_blocks ≡ b ∷ rest
      → forward_block x b c.miner.blockchain ≡ ok forwarded
      → c' ≡ record c {
        miner = record (c.miner) { blockchain = forwarded.0; finished_blocks = rest };
        sent = c.sent ++ broadcast forwarded.1 ∷ [];
      }
      → Step x c c'

-- The states that some interleaving of the threads leads to.
pub data Reach (x : External) : Client → Type 0 where
  start :
      (genesis_parent : H256) (nonce timestamp : ℕ) (root : H256) (chain : Blockchain) (g : Block)
      → Blockchain.new x genesis_parent nonce timestamp root ≡ ok chain
      → chain_parent x chain ≡ ok g
      → Reach x (started chain g)
  later : {c c' : Client} → Reach x c → Step x c c' → Reach x c'
