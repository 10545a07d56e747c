-- ===== src/Miner.antt =====
-- miner/mod.rs: the states of the miner and a round of its loop; miner/worker.rs.
pub mod Worker
pub mod Mined
pub mod Control
pub mod Returns
pub mod Forwarded
pub mod Delivered
use final.Base.{
  ℕ, zero, suc, ◌+◌, Bool, true, false, Option, none, some, List, [], ◌∷◌, ◌++◌, map, take, ◌==◌,
  if◌then◌else◌, Run, ok, panic, ◌>>=◌, unwrap, add_u32,
}
use final.Base.HashMap.{HashMap, insert}
use final.Data.{H256, h256_key, SignedTransaction, Block}
use final.External.{External}
use final.Hash.{le}
use final.Block.{hash, get_parent, get_difficulty}
use final.Transaction.{delete_tx_from_mempool, execute_tx}
use final.Blockchain.{Blockchain, tip, get_block, get_block_state}

abbrev pub max_tx_per_block : ℕ
max_tx_per_block = 300

pub data ControlSignal : Type 0 where
  start : ℕ → ControlSignal
  update exit : ControlSignal

pub data OperatingState : Type 0 where
  paused : OperatingState
  run : ℕ → OperatingState
  shut_down : OperatingState

-- `Handle`: what its three functions put into the channel.
unfoldable pub handle_exit : List ControlSignal → List ControlSignal
handle_exit control_chan = control_chan ++ ControlSignal.exit ∷ []

unfoldable pub handle_start : ℕ → List ControlSignal → List ControlSignal
handle_start lambda control_chan = control_chan ++ ControlSignal.start lambda ∷ []

unfoldable pub handle_update : List ControlSignal → List ControlSignal
handle_update control_chan = control_chan ++ ControlSignal.update ∷ []

-- What `recv` or `try_recv` gives: a signal, nothing so far, or that all senders are gone.
pub data Received : Type 0 where
  signal : ControlSignal → Received
  empty disconnected : Received

-- `Context` and what it shares: the chain, the mempool, and the blocks sent to the miner worker.
pub record Miner : Type 0 where
  pub operating_state : OperatingState
  pub blockchain : Blockchain
  pub mempool : HashMap H256 SignedTransaction
  pub finished_blocks : List Block

-- `new`
unfoldable pub new : Blockchain → HashMap H256 SignedTransaction → Miner
new blockchain mempool = record {
  operating_state = OperatingState.paused;
  blockchain = blockchain;
  mempool = mempool;
  finished_blocks = [];
}

-- The reaction to a signal, in the arms for `Paused` and for `Run`.
unfoldable pub react : OperatingState → ControlSignal → OperatingState
react s ControlSignal.exit = OperatingState.shut_down
react s (ControlSignal.start i) = OperatingState.run i
react s ControlSignal.update = s

-- What a round does after the signals: wait, return, start over, or go on to mine.
pub data Next : Type 0 where
  waits returns continues mines : Next

-- The match on the operating state. A paused miner blocks in `recv` until a signal comes.
unfoldable pub poll : OperatingState → Received → Run (OperatingState × Next)
unfolding react
poll OperatingState.paused (signal c) = ok (react OperatingState.paused c, continues)
poll OperatingState.paused empty = ok (OperatingState.paused, waits)
poll OperatingState.paused disconnected = panic
poll OperatingState.shut_down _ = ok (OperatingState.shut_down, returns)
poll (OperatingState.run i) (signal ControlSignal.exit) = ok (OperatingState.shut_down, returns)
poll (OperatingState.run i) (signal c) = ok (react (OperatingState.run i) c, mines)
poll (OperatingState.run i) empty = ok (OperatingState.run i, mines)
poll (OperatingState.run i) disconnected = panic

-- The tip and its block, as the top of the loop and `Update` read them.
unfoldable pub chain_parent : External → Blockchain → Run Block
chain_parent x c = tip x c >>= λ chain_tip. unwrap (get_block c chain_tip)

-- `get_block_template`, over the time and the random merkle root
unfoldable pub get_block_template : External → ℕ → H256 → Block → Run Block
get_block_template x timestamp random_merkle parent_block =
    add_u32 parent_block.length 1 >>= λ length. ok (record {
      length = length;
      header = record {
        parent = hash x parent_block;
        nonce = 0;
        difficulty = get_difficulty parent_block;
        timestamp = timestamp;
        merkle_root = random_merkle;
      };
      txs = [];
    })

-- The block with the random nonce of the round.
unfoldable pub candidate : External → ℕ → ℕ → H256 → Block → Run Block
unfolding get_block_template
candidate x random_nonce timestamp random_merkle parent_block =
    get_block_template x timestamp random_merkle parent_block >>= λ block.
    ok (record block { header = record (block.header) { nonce = random_nonce } })

-- The transactions that the round takes: the first that the iteration over the mempool visits.
unfoldable pub pick_txs : External → HashMap H256 SignedTransaction → List SignedTransaction
pick_txs x mempool = take max_tx_per_block (map (λ entry. entry.1) (x.mempool_order mempool))

-- The body of the `if` once the nonce has been found.
unfoldable pub finish_block : External → Block → Block → Block → Miner → Run Miner
unfolding pick_txs
finish_block x genesis_block parent_block block m =
    let tx_data = pick_txs x m.mempool in
    unwrap (get_block_state m.blockchain (hash x parent_block)) >>= λ parent_state.
    execute_tx parent_state tx_data >>= λ executed.
    let c = record (m.blockchain) {
      block_states = insert m.blockchain.block_states (hash x block) executed.0;
    } in
    let mined = record block { txs = executed.1 } in
    let genesis = if get_parent mined == hash x genesis_block then genesis_block ∷ [] else [] in
    ok (record m {
      blockchain = c;
      mempool = delete_tx_from_mempool x m.mempool tx_data;
      finished_blocks = m.finished_blocks ++ (genesis ++ mined ∷ []);
    })

-- The part of a round below the signals.
unfoldable pub mine : External → Block → ℕ → ℕ → H256 → Block → Miner → Run Miner
unfolding candidate finish_block
mine x genesis_block random_nonce timestamp random_merkle parent_block m =
    candidate x random_nonce timestamp random_merkle parent_block >>= λ block.
    if le (hash x block) (get_difficulty block)
    then finish_block x genesis_block parent_block block m
    else ok m

-- A round of `miner_loop`, with no other thread between its locks.
unfoldable pub miner_round : External → Block → Received → ℕ → ℕ → H256 → Miner → Run (Miner × Next)
unfolding poll chain_parent mine
miner_round x genesis_block received random_nonce timestamp random_merkle m =
    chain_parent x m.blockchain >>= λ parent_block. poll m.operating_state received >>= λ polled.
    let m' = record m { operating_state = polled.0 } in
    elim (polled.1) [
      | mines ↦
          mine x genesis_block random_nonce timestamp random_merkle parent_block m' >>= λ mined.
          ok (mined, mines)
      | other ↦ ok (m', other)
    ]

-- What a round takes from outside: the signal, the nonce, the time and the merkle root.
pub record Input : Type 0 where
  pub received : Received
  pub random_nonce : ℕ
  pub timestamp : ℕ
  pub random_merkle : H256

-- A round that has returned ends the loop; after any other the loop goes on.
abbrev pub after_round : Next → Miner → Run (Miner × Next) → Run (Miner × Next)
after_round returns m rest = ok (m, returns)
after_round waits m rest = rest
after_round continues m rest = rest
after_round mines m rest = rest

-- The `loop`, over what its rounds take from outside, until it returns or no more is known.
unfoldable pub rounds : External → Block → List Input → Miner → Run (Miner × Next)
unfolding miner_round
rounds x genesis_block [] m = ok (m, waits)
rounds x genesis_block (i ∷ inputs) m =
    miner_round x genesis_block i.received i.random_nonce i.timestamp i.random_merkle m >>= λ ended.
    after_round ended.1 ended.0 (rounds x genesis_block inputs ended.0)

-- `miner_loop`, with the genesis block that it reads first
unfoldable pub miner_loop : External → List Input → Miner → Run (Miner × Next)
unfolding chain_parent rounds
miner_loop x inputs m =
    chain_parent x m.blockchain >>= λ genesis_block. rounds x genesis_block inputs m
