-- ===== src/Client/Locks/Finishing.antt =====
-- The programs of the threads, except for a miner that finds a block, take the mutexes in order.
use mathlib.Core.List.{append_assoc}
use final.Base.{ℕ, zero, suc, ◌≡◌, refl, Bool, true, false, List, [], ◌∷◌, ◌++◌, map, All, arith}
use final.Data.{Block, Message}
use final.Client.Locks.{
  chain_mutex, unlock, Action, Arrival, known, root, child_or_orphan, block_locks, blocks_locks,
  message_locks, messages_locks, Round, polled, missed, found, updated_missed, updated_found,
  round_locks, rounds_locks, Role, network_worker, miner, chain_user, uses_locks, role_locks, spawn,
  run,
}
use final.Client.Locks.Ordered.{
  Ascends, IsOrdered, IsFinished, run-IsOrdered, run-append, finish, work,
}

unfoldable pub finds : Round → Bool
finds polled = false
finds missed = false
finds found = true
finds updated_missed = false
finds updated_found = true

-- A thread that is not a miner that finds a block.
abbrev pub IsSearching : Role → Type 0
IsSearching (network_worker arrival msgs) = Unit
IsSearching (miner rounds) = All (λ r. finds r ≡ false) rounds
IsSearching (chain_user n) = Unit

block_locks-Ascends :
    (a : Arrival) (todo : List Action)
    → Ascends (chain_mutex ∷ []) todo
    → Ascends (chain_mutex ∷ []) (block_locks a ++ todo)
unfolding block_locks
block_locks-Ascends known todo o = o
block_locks-Ascends root todo o = ((omega arith, tt), o)
block_locks-Ascends child_or_orphan todo o = ((omega arith, tt), ((omega arith, tt), o))

blocks_locks-Ascends :
    (arrival : Block → Arrival) (bs : List Block) (todo : List Action)
    → Ascends (chain_mutex ∷ []) todo
    → Ascends (chain_mutex ∷ []) (blocks_locks arrival bs ++ todo)
unfolding blocks_locks
blocks_locks-Ascends arrival [] todo o = o
blocks_locks-Ascends arrival (b ∷ bs) todo o =
    rw (append_assoc (block_locks (arrival b)) (blocks_locks arrival bs) todo) (
      block_locks-Ascends (arrival b) (blocks_locks arrival bs ++ todo)
        (blocks_locks-Ascends arrival bs todo o))

message_locks-Ascends :
    (arrival : Block → Arrival) (msg : Message) (todo : List Action)
    → Ascends [] todo
    → Ascends [] (message_locks arrival msg ++ todo)
unfolding message_locks
message_locks-Ascends arrival (Message.ping nonce) todo o = o
message_locks-Ascends arrival (Message.pong nonce) todo o = o
message_locks-Ascends arrival (Message.new_block_hashes hs) todo o = (tt, o)
message_locks-Ascends arrival (Message.get_blocks hs) todo o = (tt, o)
message_locks-Ascends arrival (Message.blocks bs) todo o = (
  tt,
  rw (append_assoc (blocks_locks arrival bs) (unlock ∷ []) todo)
      (blocks_locks-Ascends arrival bs (unlock ∷ todo) o),
)
message_locks-Ascends arrival (Message.new_transaction_hashes hs) todo o = (tt, o)
message_locks-Ascends arrival (Message.get_transactions hs) todo o = (tt, o)
message_locks-Ascends arrival (Message.transactions ts) todo o = (tt, o)

messages_locks-Ascends :
    (arrival : Block → Arrival) (msgs : List Message) → Ascends [] (messages_locks arrival msgs)
unfolding messages_locks
messages_locks-Ascends arrival [] = refl
messages_locks-Ascends arrival (msg ∷ msgs) =
    message_locks-Ascends arrival msg (messages_locks arrival msgs)
      (messages_locks-Ascends arrival msgs)

rounds_locks-Ascends :
    (rounds : List Round) → All (λ r. finds r ≡ false) rounds → Ascends [] (rounds_locks rounds)
unfolding rounds_locks round_locks finds
rounds_locks-Ascends [] quiet = refl
rounds_locks-Ascends (polled ∷ rs) (q, quiet) = (tt, rounds_locks-Ascends rs quiet)
rounds_locks-Ascends (missed ∷ rs) (q, quiet) = (tt, rounds_locks-Ascends rs quiet)
rounds_locks-Ascends (found ∷ rs) (q, quiet) = cc q
rounds_locks-Ascends (updated_missed ∷ rs) (q, quiet) = (tt, (tt, rounds_locks-Ascends rs quiet))
rounds_locks-Ascends (updated_found ∷ rs) (q, quiet) = cc q

uses_locks-Ascends : (n : ℕ) → Ascends [] (uses_locks n)
unfolding uses_locks
uses_locks-Ascends zero = refl
uses_locks-Ascends (suc n) = (tt, uses_locks-Ascends n)

spawn-IsOrdered : (r : Role) → IsSearching r → IsOrdered (spawn r)
unfolding role_locks
spawn-IsOrdered (network_worker arrival msgs) quiet = messages_locks-Ascends arrival msgs
spawn-IsOrdered (miner rounds) quiet = (tt, rounds_locks-Ascends rounds quiet)
spawn-IsOrdered (chain_user n) quiet = uses_locks-Ascends n

spawned-IsOrdered : (rs : List Role) → All IsSearching rs → All IsOrdered (map spawn rs)
spawned-IsOrdered [] quiet = tt
spawned-IsOrdered (r ∷ rs) (q, quiet) = (spawn-IsOrdered r q, spawned-IsOrdered rs quiet)

-- Any number of network workers with any messages, miners that find no block, and other users of
-- the chain never block one another for good: however they have been scheduled so far, some further
-- schedule lets all of them finish.
pub searching_threads_finish :
    (rs : List Role) (is : List ℕ)
    → All IsSearching rs
    → (js : List ℕ) × All IsFinished (run (is ++ js) (map spawn rs))
searching_threads_finish rs is quiet =
    let threads = run is (map spawn rs) in
    let o = run-IsOrdered is (map spawn rs) (spawned-IsOrdered rs quiet) in
    let (js, done) = finish (suc (work threads)) threads (omega arith) o in
    (js, rw (run-append is js (map spawn rs)) done)
