-- ===== src/Network/Worker/Confirmed.antt =====
-- The mempool once a node has handled a new block.
use mathlib.Core.List.{Memᴰ}
use final.Base.{◌≡◌, ap, ◌∙◌, none, ok}
use final.Base.HashMap.{get}
use final.Data.{h256_key, SignedTransaction, Block}
use final.External.{External}
use final.Block.{hash_signed}
use final.Transaction.Generated.{get-delete_tx_from_mempool}
use final.Network.Worker.{Worker, handle_new_block}
use final.Network.Worker.Pool.{handle_new_block-mempool}

module _ (x : External) where
  -- Once a node has handled a new block without a panic, whether it was stored, buffered or
  -- refused, no transaction of the block is in the mempool.
  pub handle_new_block_confirms :
      (b : Block) (w w' : Worker) (tx : SignedTransaction)
      → handle_new_block x b w ≡ ok w'
      → Memᴰ tx b.txs
      → get w'.mempool (hash_signed x tx) ≡ none
  handle_new_block_confirms b w w' tx e i =
      ap (λ m. get m (hash_signed x tx)) (handle_new_block-mempool x b w w' e)
      ∙ get-delete_tx_from_mempool x w.mempool b.txs tx i
