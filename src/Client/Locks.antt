-- ===== src/Client/Locks.antt =====
-- The three mutexes of main.rs, and the order in which each thread takes them: network/worker.rs,
-- miner/mod.rs, miner/worker.rs, types/transaction.rs and api/mod.rs.
pub mod Ordered
pub mod Finishing
pub mod Deadlock
use final.Base.{
  ℕ, zero, suc, ◌+◌, Bool, true, false, not, Option, none, some, List, [], ◌∷◌, ◌++◌, map, nat_eq,
  if◌then◌else◌,
}
use final.External.{External}
use final.Block.{hash}
use final.Blockchain.{Blockchain, get_block, get_parent_block}
use final.Data.{Block, Message}

-- The mutexes that threads share; `started_tx_gen`, which only requests of one kind take, is none
-- of them.
pub data Mutex : Type 0 where
  chain_mutex mempool_mutex orphan_mutex : Mutex

-- Their numbers, in the order in which a network worker takes them.
abbrev pub rank : Mutex → ℕ
rank chain_mutex = 0
rank mempool_mutex = 1
rank orphan_mutex = 2

-- `lock()` on a mutex, and the end of the scope of the guard that was taken last.
pub data Action : Type 0 where
  lock : Mutex → Action
  unlock : Action

-- What a new block meets in `handle_new_block`: it is in the chain already, it is a first block
-- without a parent, or it is another one.
pub data Arrival : Type 0 where
  known root child_or_orphan : Arrival

-- What a block meets on a chain.
unfoldable pub arrival_of : External → Blockchain → Block → Arrival
arrival_of x c b = elim (get_block c (hash x b)) [
  | some _ ↦ known
  | none ↦ elim (get_parent_block c b) [
    | some _ ↦ child_or_orphan
    | none ↦ if nat_eq b.length 1 then root else child_or_orphan
  ]
]

-- The locks that the loop body for a block of a message takes, the call of `handle_new_block` included.
unfoldable pub block_locks : Arrival → List Action
block_locks known = []
block_locks root = lock mempool_mutex ∷ unlock ∷ []
block_locks child_or_orphan = lock mempool_mutex ∷ unlock ∷ lock orphan_mutex ∷ unlock ∷ []

unfoldable pub blocks_locks : (Block → Arrival) → List Block → List Action
unfolding block_locks
blocks_locks arrival [] = []
blocks_locks arrival (b ∷ bs) = block_locks (arrival b) ++ blocks_locks arrival bs

-- An arm of the match of `worker_loop`
unfoldable pub message_locks : (Block → Arrival) → Message → List Action
unfolding blocks_locks
message_locks arrival (Message.ping nonce) = []
message_locks arrival (Message.pong nonce) = []
message_locks arrival (Message.new_block_hashes hs) = lock chain_mutex ∷ unlock ∷ []
message_locks arrival (Message.get_blocks hs) = lock chain_mutex ∷ unlock ∷ []
message_locks arrival (Message.blocks bs) =
    lock chain_mutex ∷ (blocks_locks arrival bs ++ unlock ∷ [])
message_locks arrival (Message.new_transaction_hashes hs) = lock mempool_mutex ∷ unlock ∷ []
message_locks arrival (Message.get_transactions hs) = lock mempool_mutex ∷ unlock ∷ []
message_locks arrival (Message.transactions ts) = lock mempool_mutex ∷ unlock ∷ []

unfoldable pub messages_locks : (Block → Arrival) → List Message → List Action
unfolding message_locks
messages_locks arrival [] = []
messages_locks arrival (msg ∷ msgs) = message_locks arrival msg ++ messages_locks arrival msgs

-- How a round of the miner ends: before it mines, without the nonce, or with it; an `Update` may
-- have come.
pub data Round : Type 0 where
  polled missed found updated_missed updated_found : Round

abbrev pub look_locks : List Action
look_locks = lock chain_mutex ∷ unlock ∷ []

-- The locks of the body of the `if` that has found the nonce.
abbrev pub found_locks : List Action
found_locks = lock mempool_mutex ∷ lock chain_mutex ∷ unlock ∷ unlock ∷ []

unfoldable pub round_locks : Round → List Action
round_locks polled = look_locks
round_locks missed = look_locks
round_locks found = look_locks ++ found_locks
round_locks updated_missed = look_locks ++ look_locks
round_locks updated_found = look_locks ++ (look_locks ++ found_locks)

unfoldable pub rounds_locks : List Round → List Action
unfolding round_locks
rounds_locks [] = []
rounds_locks (r ∷ rs) = round_locks r ++ rounds_locks rs

-- The threads that take locks. The miner's worker takes the chain's for each block; the transaction
-- generator for each transaction; and the API for each request on the chain.
pub data Role : Type 0 where
  network_worker : (Block → Arrival) → List Message → Role
  miner : List Round → Role
  chain_user : ℕ → Role

unfoldable pub uses_locks : ℕ → List Action
uses_locks zero = []
uses_locks (suc n) = look_locks ++ uses_locks n

unfoldable pub role_locks : Role → List Action
unfolding messages_locks rounds_locks uses_locks
role_locks (network_worker arrival msgs) = messages_locks arrival msgs
role_locks (miner rounds) = look_locks ++ rounds_locks rounds
role_locks (chain_user n) = uses_locks n

-- A thread: the locks that it holds, the last one first, and what it has yet to do.
pub record Thread : Type 0 where
  pub held : List Mutex
  pub todo : List Action

abbrev pub spawn : Role → Thread
spawn r = record { held = []; todo = role_locks r }

unfoldable pub holds : Mutex → List Mutex → Bool
holds m [] = false
holds m (h ∷ held) = if nat_eq (rank h) (rank m) then true else holds m held

unfoldable pub taken : Mutex → List Thread → Bool
unfolding holds
taken m [] = false
taken m (t ∷ ts) = if holds m t.held then true else taken m ts

-- What a thread does if it is scheduled among `all`: nothing while the mutex that it wants is taken.
unfoldable pub act : List Thread → Thread → Option Thread
unfolding taken
act all t = elim (t.todo) [
  | [] ↦ none
  | action ∷ rest ↦ elim action [
    | lock m ↦ if taken m all then none else some (record { held = m ∷ t.held; todo = rest })
    | unlock ↦ elim (t.held) [ [] ↦ none | h ∷ held ↦ some (record { held = held; todo = rest }) ]
  ]
]

-- The threads after the one at a place has been scheduled, and after a sequence of such turns.
unfoldable pub turn : List Thread → List Thread → ℕ → List Thread
unfolding act
turn all [] i = []
turn all (t ∷ ts) zero = elim (act all t) [ none ↦ t ∷ ts | some t' ↦ t' ∷ ts ]
turn all (t ∷ ts) (suc i) = t ∷ turn all ts i

unfoldable pub run : List ℕ → List Thread → List Thread
unfolding turn
run [] ts = ts
run (i ∷ is) ts = run is (turn ts ts i)
