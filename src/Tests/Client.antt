-- ===== src/Tests/Client.antt =====
-- A client whose miner finds a block on its first chain and whose miner's worker stores it.
use final.Base.{
  none, sym, some_inj, Bool-cases, inl, inr, ◌==◌, ℕ, ◌+◌, ◌^◌, ◌<◌, ◌≡◌, refl, ap, some, ok, List,
  [], ◌∷◌, ◌++◌, map, All, drop, bytes_eq, arith,
}
use mathlib.Core.Path.{subst}
use final.Transaction.Ledger.{total}
use final.Transaction.Execution.{NoncesFit}
use final.Network.Worker.{Worker, find_child, handle_new_block}
use final.Network.Worker.Returns.{HasRoom, IsPlaced}
use final.Base.HashMap.{get, insert, retain}
use final.Data.{H256, h256_key, State, Block, Message}
use final.Address.{from_public_key_bytes, last_20_bytes, to_be_bytes}
use final.Block.{hash, hash_header, do_generate_random_block}
use final.Hash.{le, cmp, from_be_bytes}
use final.Transaction.{delete_tx_from_mempool, execute_tx, execute_loop}
use final.Blockchain
use final.Blockchain.{Blockchain, ico_state, tip, tip_loop, relength, get_block, get_block_state}
use final.Blockchain.Growth.{Stores}
use final.Blockchain.Genesis.{get-single}
use final.Miner
use final.Miner.{
  Miner, OperatingState, mine, candidate, get_block_template, finish_block, pick_txs, chain_parent,
}
use final.Miner.Worker.{forward_block}
use final.Client.{worker_view, Client, Reach, start, later, started, try_nonce}
use final.Client.Soundness.{IsSound}
use final.Client.Interleaving.{Reach-IsSound}
use final.Client.Progress.{no_thread_panics}
use final.Client.Locks.{
  Action, Role, network_worker, miner, chain_user, Arrival, arrival_of, found, missed,
  updated_missed, spawn, run, Thread,
}
use final.Client.Locks.Ordered.{IsFinished}
use final.Client.Locks.Finishing.{finds, searching_threads_finish}
use final.Client.Locks.Deadlock.{miner_waits, worker_waits, found_round_deadlocks}
use final.Tests.Toy.{toy, toy_sha256, toy-IsDocumented, toy_hash}

abbrev first : Block
first = do_generate_random_block 1 0 (toy_hash 0) (toy_hash 0)

abbrev ico : State
ico = (record { bytes = drop 12 (toy_sha256 (0 ∷ 0 ∷ 0 ∷ 0 ∷ [])) }, (0, 100)) ∷ []

abbrev first_chain : Blockchain
first_chain = record { blocks = (toy_hash 1, first) ∷ []; block_states = (toy_hash 1, ico) ∷ [] }

first_chain_is_new : Blockchain.new toy (toy_hash 0) 1 0 (toy_hash 0) ≡ ok first_chain
unfolding Blockchain.new ico_state do_generate_random_block from_public_key_bytes last_20_bytes
    to_be_bytes insert hash hash_header
first_chain_is_new = refl

first_is_tip : chain_parent toy first_chain ≡ ok first
unfolding chain_parent tip tip_loop get_block get bytes_eq do_generate_random_block
first_is_tip = refl

abbrev second : Block
second = record {
  length = 2;
  header = record {
    parent = toy_hash 1;
    nonce = 2;
    difficulty = first.header.difficulty;
    timestamp = 0;
    merkle_root = toy_hash 0;
  };
  txs = [];
}

abbrev mined : Client
mined = record (started first_chain first) {
  miner = record {
    operating_state = OperatingState.paused;
    blockchain = record first_chain { block_states = (toy_hash 1, ico) ∷ (toy_hash 2, ico) ∷ [] };
    mempool = [];
    finished_blocks = first ∷ second ∷ [];
  };
}

second_is_found :
    mine toy first 2 0 (toy_hash 0) first (started first_chain first).miner ≡ ok mined.miner
unfolding mine candidate get_block_template finish_block pick_txs le cmp from_be_bytes
    get_block_state execute_tx execute_loop hash hash_header get insert bytes_eq
    do_generate_random_block delete_tx_from_mempool retain Miner.new
second_is_found = refl

mined-Reach : Reach toy mined
mined-Reach =
    later (start (toy_hash 0) 1 0 (toy_hash 0) first_chain first first_chain_is_new first_is_tip)
      (try_nonce 2 0 (toy_hash 0) mined.miner second_is_found refl)

Reach-IsSound_example : IsSound toy mined
Reach-IsSound_example = Reach-IsSound toy mined mined-Reach

first_chain_is_short :
    (h : H256) (b : Block) → get first_chain.blocks h ≡ some b → b.length + 1 < 2 ^ 32
unfolding do_generate_random_block
first_chain_is_short h b e =
    let (_, same) = get-single (toy_hash 1) h first b e in
    omega (arith, ap (λ (k : Block). k.length) same)

both_states : (h : H256) (s : State) → get mined.miner.blockchain.block_states h ≡ some s → ico ≡ s
unfolding get
both_states h s e = elim (Bool-cases (toy_hash 1 == h)) [
  | inl one ↦ some_inj (rw one at e)
  | inr other ↦ elim (Bool-cases (toy_hash 2 == h)) [
    | inl two ↦ some_inj (rw (other, two) at e)
    | inr neither ↦ cc (sym (rw (other, neither) at e))
  ]
]

mined-HasRoom : HasRoom mined.miner.blockchain
unfolding get total
mined-HasRoom = record {
  lengths = first_chain_is_short;
  balances = λ h s e. subst (λ (k : State). total k < 2 ^ 32) (both_states h s e) (omega arith);
  nonces = λ h s e. subst NoncesFit (both_states h s e) (λ a. ground arith);
}

no_thread_panics_example :
    ((p : Block) × (chain_parent toy mined.miner.blockchain ≡ ok p))
    × ((nonce timestamp : ℕ) (root : H256)
        → (m : Miner) × (mine toy mined.genesis_block nonce timestamp root mined.parent_block
              mined.miner
            ≡ ok m))
    × ((b : Block) (rest : List Block)
        → mined.miner.finished_blocks ≡ b ∷ rest
        → (chain : Blockchain) × (msg : Message) × (forward_block toy b mined.miner.blockchain
            ≡ ok (chain, msg))
          × Stores chain (hash toy b))
    × ((b : Block)
        → find_child (hash toy b) 0 mined.orphan_buffer ≡ none
        → (w : Worker) × (handle_new_block toy b (worker_view mined) ≡ ok w)
          × IsPlaced toy b (worker_view mined) w)
unfolding do_generate_random_block
no_thread_panics_example =
    no_thread_panics toy toy-IsDocumented mined mined-Reach mined-HasRoom (omega arith)

-- Two workers and a miner that has not found a block.
abbrev arrivals : Block → Arrival
arrivals b = arrival_of toy first_chain b

abbrev roles : List Role
roles =
    network_worker arrivals (Message.blocks (second ∷ []) ∷ Message.transactions [] ∷ [])
    ∷ network_worker arrivals (Message.get_blocks [] ∷ [])
    ∷ miner (missed ∷ updated_missed ∷ [])
    ∷ chain_user 2
    ∷ []

searching_threads_finish_example :
    (js : List ℕ) × All IsFinished (run ((0 ∷ 2 ∷ 1 ∷ 0 ∷ []) ++ js) (map spawn roles))
unfolding finds
searching_threads_finish_example =
    searching_threads_finish roles (0 ∷ 2 ∷ 1 ∷ 0 ∷ []) (tt, (tt, ((refl, (refl, tt)), (tt, tt))))

found_round_deadlocks_example :
    (is : List ℕ) × (p q : List Action) × ((js : List ℕ)
      → (rest : List Thread) × (run (is ++ js) (
            map spawn (
              miner (found ∷ [])
              ∷ network_worker arrivals (Message.blocks (second ∷ []) ∷ [])
              ∷ chain_user 1
              ∷ []))
          ≡ miner_waits p ∷ worker_waits q ∷ rest))
unfolding get_block get hash hash_header bytes_eq
found_round_deadlocks_example =
    found_round_deadlocks toy first_chain arrivals second [] [] [] (chain_user 1 ∷ []) refl refl
