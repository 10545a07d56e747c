-- ===== src/Tests/Gossip.antt =====
-- A node that has three blocks, and one transaction, more than its peer.
use native.Mathlib.Omega.{arith}
use final.Base.{◌≡◌, refl, [], ◌∷◌, ok, bytes_eq, All}
use final.Base.HashMap.{get}
use final.Data.{h256_key, address_key, SignedTransaction}
use final.Block.{hash, hash_header, hash_signed}
use final.Hash.{gt, cmp, from_be_bytes}
use final.Network.Worker.{Worker, check_block_validity}
use final.Network.Worker.Backwards.{insert_in_order, rev_onto}
use final.Network.Worker.Stored.{Holds}
use final.Network.Gossip.{silent, exchange}
use final.Network.Gossip.CatchUp.{announcing}
use final.Network.Gossip.Arrival.{announced_blocks_arrive}
use final.Network.Worker.Room.{Leaves}
use final.Transaction.Ledger.{total}
use final.Tests.Toy.{toy, toy_tx, toy_hash, toy_address}
use final.Tests.Chain.{genesis, toy_hash_ne}
use final.Tests.Node.{node}
use final.Tests.NewBlocks.{second, third, fourth, to_fourth}

abbrev ahead : Worker
ahead = record node { blockchain = to_fourth }

-- the peer's only block, which has room for three more
genesis_Leaves : Leaves 3 node.blockchain (toy_hash 1)
unfolding get total bytes_eq
genesis_Leaves = record {
  block = genesis;
  stored = refl;
  height = omega arith;
  state = (toy_address 1, (0, 100)) ∷ [];
  known = refl;
  coins = omega arith;
  nonces = λ a. ground arith;
}

announced_blocks_arrive_example :
    (w' : Worker) × (exchange toy 5 (announcing toy ahead fourth) node ≡ ok (silent ahead, w'))
    × (insert_in_order toy node.blockchain genesis (second ∷ third ∷ fourth ∷ [])
        ≡ ok w'.blockchain)
    × All (Holds toy w'.blockchain) (second ∷ third ∷ fourth ∷ [])
    × (w'.orphan_buffer ≡ [])
    × (w'.sent ≡ [])
unfolding genesis_Leaves hash hash_header get bytes_eq rev_onto check_block_validity gt cmp
    from_be_bytes
announced_blocks_arrive_example =
    announced_blocks_arrive toy (third ∷ second ∷ []) fourth ahead node genesis_Leaves refl refl
      (refl, omega arith, (refl, omega arith, tt))
      ((refl, refl), ((refl, refl), ((refl, refl), tt)))
      (
        (toy_hash_ne 2 3 (omega arith), (toy_hash_ne 2 4 (omega arith), tt)),
        ((toy_hash_ne 3 4 (omega arith), tt), (tt, tt)),
      )
      (refl, (refl, (refl, tt))) (tt, (tt, (tt, tt)))

abbrev payment : SignedTransaction
payment = toy_tx 1 2 1 30

abbrev refund : SignedTransaction
refund = toy_tx 2 1 1 5

abbrev informed : Worker
informed = record node {
  mempool = (hash_signed toy payment, payment) ∷ (hash_signed toy refund, refund) ∷ [];
}

abbrev peer : Worker
peer = record node { mempool = (hash_signed toy refund, refund) ∷ [] }
