-- ===== src/Network/Gossip/Spread/Exchange.antt =====
-- The exchange of messages that an announcement of transactions sets off.
use final.Base.{◌≡◌, List, [], ◌∷◌, some, true}
use final.Base.HashMap.{get}
use final.Data.{h256_key, SignedTransaction, Message}
use final.External.{External}
use final.Block.{hash_signed}
use final.Network.Worker.{Worker, written, check_tx_validity, receive_transactions}
use final.Network.Gossip.{silent}

module _ (x : External) where
  abbrev delivering : Worker → List SignedTransaction → Worker
  delivering w txs = record w { sent = written (Message.transactions txs) ∷ [] }

  -- A transaction of the mempool, with a signature that verifies.
  abbrev pub IsShared : Worker → SignedTransaction → Type 0
  IsShared a tx = (get a.mempool (hash_signed x tx) ≡ some tx) × (check_tx_validity x tx ≡ true)

  -- What the peer has after the exchange.
  abbrev after : Worker → List SignedTransaction → Worker
  after w ms = silent (record w { mempool = (receive_transactions x ms w.mempool).0 })
