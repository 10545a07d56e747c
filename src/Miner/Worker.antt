-- ===== src/Miner/Worker.antt =====
-- miner/worker.rs: a finished block goes into the chain and out to the peers.
use final.Base.{List, [], ◌∷◌, Run, ok, ◌>>=◌}
use final.Data.{Block, Message}
use final.External.{External}
use final.Blockchain.{Blockchain, insert}

-- A round of `worker_loop`: the chain, and the message that is broadcast.
unfoldable pub forward_block : External → Block → Blockchain → Run (Blockchain × Message)
forward_block x block c = insert x c block >>= λ c'. ok (c', Message.blocks (block ∷ []))

-- The rounds for the blocks of the channel.
unfoldable worker_loop : External → List Block → Blockchain → Run (Blockchain × List Message)
unfolding forward_block
worker_loop x [] c = ok (c, [])
worker_loop x (block ∷ blocks) c = forward_block x block c >>= λ forwarded.
    worker_loop x blocks forwarded.0 >>= λ rest. ok (rest.0, forwarded.1 ∷ rest.1)

-- `Worker`: the blocks of its channel and the chain; the server is what it sends to.
record Worker : Type 0 where
  finished_block_chan : List Block
  blockchain : Blockchain

-- `new`
unfoldable new : List Block → Blockchain → Worker
new finished_block_chan blockchain = record {
  finished_block_chan = finished_block_chan;
  blockchain = blockchain;
}

-- `start`: its thread runs the loop.
unfoldable start : External → Worker → Run (Blockchain × List Message)
unfolding worker_loop
start x self = worker_loop x self.finished_block_chan self.blockchain
