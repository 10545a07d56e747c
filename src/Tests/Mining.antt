-- ===== src/Tests/Mining.antt =====
-- A miner that finds a block with one of two transactions of its mempool.
use final.Base.{◌≡◌, ◌⊎◌, refl, [], ◌∷◌, ok, bytes_eq, some}
use final.Base.HashMap.{get, insert}
use final.Data.{h256_key, Block, Message}
use final.Block.{hash, hash_header}
use final.Hash.{le, cmp, from_be_bytes, gt}
use final.Transaction.{
  delete_tx_from_mempool, execute_tx, execute_loop, execute_one, write_accounts,
}
use final.Blockchain.{get_block_state, tip, tip_loop, get_block, Blockchain}
use final.Miner.{
  Miner, OperatingState, mine, candidate, get_block_template, finish_block, pick_txs, ControlSignal,
  signal, empty, returns, waits, miner_round, chain_parent, Input, rounds, poll,
}
use final.Miner.Mined.{Mined, mine-Mined}
use native.Mathlib.Omega.{arith}
use final.Miner.Control.{rounds_exit}
use final.Blockchain.Invariant.{IsLinked}
use final.Network.Worker.{check_block_validity, Worker, broadcast, find_child, handle_message}
use final.Miner.Worker.{forward_block}
use final.Miner.Forwarded.{forward_block-IsLinked}
use final.Tests.Chain.{start-IsLinked, unnamed, genesis, start}
use final.Tests.Toy.{toy, toy_hash, toy_block, toy_tx, toy_address}
use final.Miner.Delivered.{handle_message_delivers}

abbrev miner : Miner
miner = record {
  operating_state = OperatingState.run 0;
  blockchain = start;
  mempool = (toy_hash 1, toy_tx 1 2 1 30) ∷ (toy_hash 5, toy_tx 1 2 5 30) ∷ [];
  finished_blocks = [];
}

abbrev found : Block
found = toy_block 2 2 1 (toy_tx 1 2 1 30 ∷ [])

abbrev after : Miner
after = record miner {
  blockchain = record start {
    block_states =
        (toy_hash 1, (toy_address 1, (0, 100)) ∷ [])
        ∷ (toy_hash 2, (toy_address 1, (1, 70)) ∷ (toy_address 2, (0, 30)) ∷ [])
        ∷ [];
  };
  mempool = delete_tx_from_mempool toy miner.mempool (toy_tx 1 2 1 30 ∷ toy_tx 1 2 5 30 ∷ []);
  finished_blocks = genesis ∷ found ∷ [];
}

mine_runs : mine toy genesis 2 0 (toy_hash 0) genesis miner ≡ ok after
unfolding mine candidate get_block_template finish_block pick_txs le cmp from_be_bytes
    get_block_state execute_tx execute_loop execute_one write_accounts hash hash_header get insert
    bytes_eq
mine_runs = refl

mine-Mined_example :
    (after ≡ miner) ⊎ ((b : Block) × Mined toy genesis miner after (genesis ∷ []) b)
unfolding hash hash_header bytes_eq
mine-Mined_example = mine-Mined toy genesis genesis 2 0 (toy_hash 0) miner after mine_runs

abbrev mining : Input
mining = record { received = empty; random_nonce = 2; timestamp = 0; random_merkle = toy_hash 0 }

abbrev exiting : Input
exiting = record mining { received = signal ControlSignal.exit; random_nonce = 3 }

one_round_runs : rounds toy genesis (mining ∷ []) miner ≡ ok (after, waits)
unfolding rounds miner_round poll chain_parent tip tip_loop get_block mine candidate
    get_block_template finish_block pick_txs le cmp from_be_bytes get_block_state execute_tx
    execute_loop execute_one write_accounts hash hash_header get insert bytes_eq
one_round_runs = refl

rounds_exit_example :
    rounds toy genesis (mining ∷ exiting ∷ mining ∷ mining ∷ []) miner
    ≡ ok (record after { operating_state = OperatingState.shut_down }, returns)
unfolding chain_parent tip tip_loop get_block get bytes_eq
rounds_exit_example =
    rounds_exit toy genesis genesis (mining ∷ []) (mining ∷ []) miner after waits exiting mining
      one_round_runs (λ e. cc e) refl refl

found-Mined : Mined toy genesis miner after (genesis ∷ []) found
unfolding check_block_validity gt cmp from_be_bytes execute_tx execute_loop execute_one
    write_accounts hash hash_header get insert bytes_eq
found-Mined = record {
  sent = refl;
  parent = refl;
  longer = refl;
  valid = refl;
  few = omega arith;
  before = (toy_address 1, (0, 100)) ∷ [];
  after = (toy_address 1, (1, 70)) ∷ (toy_address 2, (0, 30)) ∷ [];
  parent_state = refl;
  stored_state = refl;
  executes = refl;
}

after-IsLinked : IsLinked toy after.blockchain
after-IsLinked = record {
  distinct = start-IsLinked.distinct;
  keyed = start-IsLinked.keyed;
  positive = start-IsLinked.positive;
  rooted = start-IsLinked.rooted;
  linked = start-IsLinked.linked;
}

forward_block-IsLinked_example :
    (c : Blockchain) × (forward_block toy found after.blockchain
      ≡ ok (c, Message.blocks (found ∷ [])))
    × IsLinked toy c
    × (get c.blocks (hash toy found) ≡ some found)
unfolding hash hash_header get bytes_eq
forward_block-IsLinked_example =
    forward_block-IsLinked toy genesis found miner after (genesis ∷ []) found-Mined after-IsLinked
      refl (omega arith) refl unnamed

-- a peer that has the genesis block
abbrev peer : Worker
peer = record { blockchain = start; orphan_buffer = []; mempool = []; sent = [] }

handle_message_delivers_example :
    (w' : Worker) × (handle_message toy (Message.blocks (found ∷ [])) peer ≡ ok w')
    × (get w'.blockchain.blocks (hash toy found) ≡ some found)
    × (get w'.blockchain.block_states (hash toy found)
        ≡ get after.blockchain.block_states (hash toy found))
    × (w'.mempool ≡ delete_tx_from_mempool toy peer.mempool found.txs)
    × (w'.sent ≡ broadcast (Message.new_block_hashes (hash toy found ∷ [])) ∷ [])
unfolding hash hash_header get find_child bytes_eq
handle_message_delivers_example =
    handle_message_delivers toy genesis found miner after (genesis ∷ []) peer found-Mined
      (omega arith) refl refl refl refl
