-- ===== src/Network/Worker.antt =====
-- network/worker.rs: a message handler runs with the locks it takes, as one step on what they guard.
pub mod Requests
pub mod Pool
pub mod Orphans
pub mod States
pub mod Confirmed
pub mod Returns
pub mod Adoption
pub mod Forged
pub mod Backwards
pub mod Stored
pub mod Theft
pub mod Room
use final.Base.{
  ℕ, zero, suc, ◌+◌, Bool, true, false, not, ◌||◌, Option, none, some, List, [], ◌∷◌, ◌++◌, length,
  remove_at, ltb, nat_eq, ◌==◌, if◌then◌else◌, Run, ok, panic, no_fuel, ◌>>=◌, unwrap,
}
use final.Base.HashMap.{HashMap, get, insert}
use final.Data.{H256, h256_key, SignedTransaction, Block, Message}
use final.External.{External}
use final.Hash.{gt}
use final.Block.{hash, hash_signed, get_parent, get_difficulty}
use final.Transaction.{verify, delete_tx_from_mempool, execute_tx}
use final.Blockchain
use final.Blockchain.{Blockchain, ico_state, get_block, get_block_state, get_parent_block}

-- What a handler sends: `peer.write` and `server.broadcast`.
pub data Sent : Type 0 where
  written broadcast : Message → Sent

-- What the handlers share, and what they have sent so far.
pub record Worker : Type 0 where
  pub blockchain : Blockchain
  pub orphan_buffer : List Block
  pub mempool : HashMap H256 SignedTransaction
  pub sent : List Sent

-- `new`: the threads share a new orphan buffer.
unfoldable pub new : Blockchain → HashMap H256 SignedTransaction → Worker
new blockchain mempool = record {
  blockchain = blockchain;
  orphan_buffer = [];
  mempool = mempool;
  sent = [];
}

abbrev pub send : Sent → Worker → Worker
send s w = record w { sent = w.sent ++ s ∷ [] }

unfoldable pub check_tx_validity : External → SignedTransaction → Bool
unfolding verify
check_tx_validity x tx =
    if not (verify x tx.transaction tx.public_key tx.signature) then false else true

unfoldable pub check_block_validity : External → Block → Block → Bool
check_block_validity x block parent =
    if gt (hash x block) (get_difficulty block)
      || not (get_difficulty block == get_difficulty parent)
    then false
    else true

-- `Vec::remove`
unfoldable pub remove {ℓ} : {A : Type ℓ} → List A → ℕ → Run (List A)
remove xs i = if ltb i (length xs) then ok (remove_at i xs) else panic

-- The state after a block, from that of its parent, and the block itself.
unfoldable pub execute_and_insert : External → Blockchain → Block → Run Blockchain
execute_and_insert x c block = unwrap (get_block_state c (get_parent block)) >>= λ parent_state.
    execute_tx parent_state block.txs >>= λ executed.
    Blockchain.insert x
      (record c { block_states = insert c.block_states (hash x block) executed.0 }) block

unfoldable pub insert_if_valid : External → Blockchain → Block → Block → Run Blockchain
unfolding execute_and_insert check_block_validity
insert_if_valid x c block parent =
    if check_block_validity x block parent then execute_and_insert x c block else ok c

-- The `for` loop over the orphans: the first child of `parent_hash`, and where it stands.
unfoldable pub find_child : H256 → ℕ → List Block → Option (ℕ × Block)
find_child parent_hash idx [] = none
find_child parent_hash idx (block ∷ blocks) =
    if get_parent block == parent_hash
    then some (idx, block)
    else find_child parent_hash (idx + 1) blocks

-- The `loop` around it, until no orphan is a child of the block inserted last.
unfoldable pub adopt_loop :
    External → ℕ → List Block → Blockchain → Block → List ℕ → Run (Blockchain × List ℕ)
unfolding find_child insert_if_valid
adopt_loop x zero orphans c new_block_inserted idx_to_delete = no_fuel
adopt_loop x (suc fuel) orphans c new_block_inserted idx_to_delete =
    elim (find_child (hash x new_block_inserted) 0 orphans) [
      | none ↦ ok (c, idx_to_delete)
      | some (idx, block) ↦ insert_if_valid x c block new_block_inserted >>= λ c'.
          adopt_loop x fuel orphans c' block (idx_to_delete ++ idx ∷ [])
    ]

-- The cleanup of the orphan buffer.
unfoldable pub cleanup : List Block → List ℕ → Run (List Block)
unfolding remove
cleanup orphans [] = ok orphans
cleanup orphans (i ∷ rest) = remove orphans i >>= λ kept. cleanup kept rest

-- The two arms of the match on the parent block.
unfoldable pub without_parent : External → Block → Worker → Run Worker
without_parent x block w =
    if nat_eq block.length 1
    then (Blockchain.insert x w.blockchain block >>= λ c. ico_state x >>= λ state. ok (record w {
      blockchain = record c { block_states = insert c.block_states (hash x block) state };
    }))
    else ok (
        send (broadcast (Message.get_blocks (get_parent block ∷ [])))
          (record w { orphan_buffer = w.orphan_buffer ++ block ∷ [] }))

-- The search passes no orphan twice, or it never ends: one round for each orphan, and the last.
unfoldable pub with_parent : External → Block → Block → Worker → Run Worker
unfolding adopt_loop cleanup
with_parent x block parent_block w = insert_if_valid x w.blockchain block parent_block >>= λ c.
    adopt_loop x (suc (length w.orphan_buffer)) w.orphan_buffer c block [] >>= λ adopted.
    cleanup w.orphan_buffer adopted.1 >>= λ orphans.
    ok (record w { blockchain = adopted.0; orphan_buffer = orphans })

unfoldable pub handle_new_block : External → Block → Worker → Run Worker
unfolding without_parent with_parent
handle_new_block x block w =
    let w' = record w { mempool = delete_tx_from_mempool x w.mempool block.txs } in
    elim (get_parent_block w'.blockchain block) [
      | none ↦ without_parent x block w'
      | some parent_block ↦ with_parent x block parent_block w'
    ]

-- The loops of the handlers: the hashes that a map lacks, and the values of those that it has.
module _ {V : Type 0} where
  unfoldable pub unseen_hashes : HashMap H256 V → List H256 → List H256
  unseen_hashes m [] = []
  unseen_hashes m (hash ∷ hashes) = elim (get m hash) [
    | none ↦ hash ∷ unseen_hashes m hashes
    | some _ ↦ unseen_hashes m hashes
  ]

  unfoldable pub found_values : HashMap H256 V → List H256 → List V
  found_values m [] = []
  found_values m (hash ∷ hashes) = elim (get m hash) [
    | none ↦ found_values m hashes
    | some v ↦ v ∷ found_values m hashes
  ]

-- Nothing is sent for an empty list.
abbrev pub send_some {ℓ} : {A : Type ℓ} → (List A → Sent) → List A → Worker → Worker
send_some s [] w = w
send_some s (a ∷ rest) w = send (s (a ∷ rest)) w

-- The blocks of a message, each once its hash is not in the chain; the new hashes.
unfoldable pub receive_blocks : External → List Block → Worker → Run (Worker × List H256)
unfolding handle_new_block
receive_blocks x [] w = ok (w, [])
receive_blocks x (block ∷ blocks) w = elim (get_block w.blockchain (hash x block)) [
  | none ↦ handle_new_block x block w >>= λ w'.
      receive_blocks x blocks w' >>= λ rest. ok (rest.0, hash x block ∷ rest.1)
  | some _ ↦ receive_blocks x blocks w
]

-- The transactions of a message: the mempool after them, and the hashes that it took in.
unfoldable pub receive_transactions :
    External
    → List SignedTransaction
    → HashMap H256 SignedTransaction
    → HashMap H256 SignedTransaction × List H256
unfolding check_tx_validity
receive_transactions x [] mempool = (mempool, [])
receive_transactions x (tx ∷ txs) mempool = elim (get mempool (hash_signed x tx)) [
  | none ↦ elim (check_tx_validity x tx) [
    | true ↦
        let rest = receive_transactions x txs (insert mempool (hash_signed x tx) tx) in
        (rest.0, hash_signed x tx ∷ rest.1)
    | false ↦ receive_transactions x txs mempool
  ]
  | some _ ↦ receive_transactions x txs mempool
]

-- The body of `worker_loop`, for a message that has been read.
unfoldable pub handle_message : External → Message → Worker → Run Worker
unfolding unseen_hashes found_values receive_blocks receive_transactions
handle_message x (Message.ping nonce) w = ok (send (written (Message.pong nonce)) w)
handle_message x (Message.pong nonce) w = ok w
handle_message x (Message.new_block_hashes hashes) w =
    let unseen = unseen_hashes w.blockchain.blocks hashes in
    ok (send_some (λ hs. written (Message.get_blocks hs)) unseen w)
handle_message x (Message.get_blocks hashes) w =
    let blocks_in_chain = found_values w.blockchain.blocks hashes in
    ok (send_some (λ bs. written (Message.blocks bs)) blocks_in_chain w)
handle_message x (Message.blocks blocks) w = receive_blocks x blocks w >>= λ received.
    ok (send_some (λ hs. broadcast (Message.new_block_hashes hs)) received.1 received.0)
handle_message x (Message.new_transaction_hashes hashes) w =
    let unseen = unseen_hashes w.mempool hashes in
    ok (send_some (λ hs. written (Message.get_transactions hs)) unseen w)
handle_message x (Message.get_transactions hashes) w =
    let tx_in_mempool = found_values w.mempool hashes in
    ok (send_some (λ ts. written (Message.transactions ts)) tx_in_mempool w)
handle_message x (Message.transactions txs) w =
    let received = receive_transactions x txs w.mempool in
    ok (
      send_some (λ hs. broadcast (Message.new_transaction_hashes hs)) received.1
        (record w { mempool = received.0 }))

-- `worker_loop` over the messages that arrive
unfoldable pub worker_loop : External → List Message → Worker → Run Worker
unfolding handle_message
worker_loop x [] w = ok w
worker_loop x (msg ∷ msgs) w = handle_message x msg w >>= λ w'. worker_loop x msgs w'
