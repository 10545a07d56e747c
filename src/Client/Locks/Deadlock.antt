-- ===== src/Client/Locks/Deadlock.antt =====
-- The miner takes the mempool's mutex and then the chain's, and a network worker the other way
-- round.
use final.Base.{
  none, sym, Option-cases, Bool-cases, inl, inr, nat_eq, ℕ, zero, suc, ◌≡◌, ◌≢◌, refl, ap, ◌∙◌,
  false, List, [], ◌∷◌, ◌++◌, map,
}
use final.Data.{Block, Message}
use final.External.{External}
use final.Block.{hash}
use final.Blockchain.{Blockchain, get_block, get_parent_block}
use final.Client.Locks.{
  arrival_of, Mutex, chain_mutex, mempool_mutex, lock, unlock, Action, Arrival, known, root,
  child_or_orphan, block_locks, blocks_locks, message_locks, messages_locks, Round, found,
  look_locks, round_locks, rounds_locks, Role, network_worker, miner, role_locks, Thread, spawn,
  holds, taken, act, turn, run,
}
use final.Client.Locks.Ordered.{turn-some, run-append}

-- No thread holds a mutex at its start.
taken-spawn : (m : Mutex) (rs : List Role) → taken m (map spawn rs) ≡ false
unfolding taken holds
taken-spawn m [] = refl
taken-spawn m (r ∷ rs) = taken-spawn m rs

-- The miner with the mempool's mutex, before it takes the chain's; the worker with the chain's,
-- before it takes the mempool's.
abbrev pub miner_waits : List Action → Thread
miner_waits todo = record { held = mempool_mutex ∷ []; todo = lock chain_mutex ∷ todo }

abbrev pub worker_waits : List Action → Thread
worker_waits todo = record { held = chain_mutex ∷ []; todo = lock mempool_mutex ∷ todo }

-- The two stay as they are, whatever is scheduled.
stays_blocked :
    (p q : List Action) (rest : List Thread) (js : List ℕ)
    → (rest' : List Thread) × (run js (miner_waits p ∷ worker_waits q ∷ rest)
        ≡ miner_waits p ∷ worker_waits q ∷ rest')
unfolding run turn act taken holds
stays_blocked p q rest [] = (rest, refl)
stays_blocked p q rest (zero ∷ js) = stays_blocked p q rest js
stays_blocked p q rest (suc zero ∷ js) = stays_blocked p q rest js
stays_blocked p q rest (suc (suc j) ∷ js) =
    stays_blocked p q (turn (miner_waits p ∷ worker_waits q ∷ rest) rest j) js

-- The first of the threads takes a mutex that is free, and so does the second.
first_locks :
    (m : Mutex) (held : List Mutex) (todo : List Action) (ts : List Thread) (is : List ℕ)
    → taken m (record { held = held; todo = lock m ∷ todo } ∷ ts) ≡ false
    → run (0 ∷ is) (record { held = held; todo = lock m ∷ todo } ∷ ts)
      ≡ run is (record { held = m ∷ held; todo = todo } ∷ ts)
unfolding run act
first_locks m held todo ts is free =
    let t : Thread = record { held = held; todo = lock m ∷ todo } in
    ap (run is)
      (turn-some (t ∷ ts) ts t (record { held = m ∷ held; todo = todo }) (rw (free, act) refl))

second_locks :
    (t : Thread) (m : Mutex) (held : List Mutex) (todo : List Action) (ts : List Thread)
    (is : List ℕ)
    → taken m (t ∷ record { held = held; todo = lock m ∷ todo } ∷ ts) ≡ false
    → run (1 ∷ is) (t ∷ record { held = held; todo = lock m ∷ todo } ∷ ts)
      ≡ run is (t ∷ record { held = m ∷ held; todo = todo } ∷ ts)
unfolding run act turn
second_locks t m held todo ts is free =
    let t' : Thread = record { held = held; todo = lock m ∷ todo } in
    ap (λ us. run is (t ∷ us))
      (turn-some (t ∷ t' ∷ ts) ts t' (record { held = m ∷ held; todo = todo })
        (rw (free, act) refl))

-- The miner's turns up to its second lock of a round that has found a block, and the worker's first.
abbrev pub bad_schedule : List ℕ
bad_schedule = 0 ∷ 0 ∷ 0 ∷ 0 ∷ 0 ∷ 1 ∷ []

meets :
    (p q : List Action) (rs : List Role)
    → run bad_schedule (
        record {
          held = [];
          todo = look_locks ++ (look_locks ++ lock mempool_mutex ∷ lock chain_mutex ∷ p);
        }
        ∷ record { held = []; todo = lock chain_mutex ∷ lock mempool_mutex ∷ q }
        ∷ map spawn rs)
      ≡ miner_waits p ∷ worker_waits q ∷ map spawn rs
unfolding run turn act taken holds
meets p q rs =
    let worker : Thread = record { held = []; todo = lock chain_mutex ∷ lock mempool_mutex ∷ q } in
    let others = worker ∷ map spawn rs in
    let free = taken-spawn chain_mutex rs in
    let ready = lock mempool_mutex ∷ lock chain_mutex ∷ p in
    first_locks chain_mutex [] (unlock ∷ look_locks ++ ready) others (0 ∷ 0 ∷ 0 ∷ 0 ∷ 1 ∷ []) free
    ∙ first_locks chain_mutex [] (unlock ∷ ready) others (0 ∷ 0 ∷ 1 ∷ []) free
    ∙ first_locks mempool_mutex [] (lock chain_mutex ∷ p) others (1 ∷ [])
        (taken-spawn mempool_mutex rs)
    ∙ second_locks (miner_waits p) chain_mutex [] (lock mempool_mutex ∷ q) (map spawn rs) [] free

-- The first block of the message that is not in the chain makes the worker take the mempool's mutex.
new_block_locks :
    (a : Arrival) → a ≢ known → (q : List Action) × (block_locks a ≡ lock mempool_mutex ∷ q)
unfolding block_locks
new_block_locks known new = absurd (new refl)
new_block_locks root new = (_, refl)
new_block_locks child_or_orphan new = (_, refl)

-- A block that is not in the chain is new to `handle_new_block`.
arrival_of_new :
    (x : External) (c : Blockchain) (b : Block)
    → get_block c (hash x b) ≡ none
    → arrival_of x c b ≢ known
unfolding arrival_of
arrival_of_new x c b fresh e = elim (Option-cases (get_parent_block c b)) [
  | inr (p, parent) ↦
      let met : arrival_of x c b ≡ child_or_orphan = rw (fresh, arrival_of) (rw parent refl) in
      cc (sym met ∙ e)
  | inl missing ↦ elim (Bool-cases (nat_eq b.length 1)) [
    | inl one ↦
        let met : arrival_of x c b ≡ root = rw (fresh, arrival_of) (rw (missing, one) refl) in
        cc (sym met ∙ e)
    | inr other ↦
        let met : arrival_of x c b ≡ child_or_orphan =
          rw (fresh, arrival_of) (rw (missing, other) refl) in
        cc (sym met ∙ e)
  ]
]

-- A miner whose first round finds a block, and a network worker with a message of blocks whose
-- first is not in the chain, can block one another for good, whatever other threads there are: after some
-- schedule the miner holds the mempool's mutex, the worker holds the chain's, and no further
-- schedule changes either of them.
pub found_round_deadlocks :
    (x : External) (c : Blockchain) (arrival : Block → Arrival) (b : Block) (bs : List Block)
    (msgs : List Message) (rounds : List Round) (rs : List Role)
    → get_block c (hash x b) ≡ none
    → arrival b ≡ arrival_of x c b
    → (is : List ℕ) × (p q : List Action) × ((js : List ℕ)
        → (rest : List Thread) × (run (is ++ js) (
              map spawn (
                miner (found ∷ rounds)
                ∷ network_worker arrival (Message.blocks (b ∷ bs) ∷ msgs)
                ∷ rs))
            ≡ miner_waits p ∷ worker_waits q ∷ rest))
unfolding role_locks rounds_locks round_locks messages_locks message_locks blocks_locks
found_round_deadlocks x c arrival b bs msgs rounds rs fresh met =
    let new = λ (e : arrival b ≡ known). arrival_of_new x c b fresh (sym met ∙ e) in
    let (q, first) = new_block_locks (arrival b) new in
    let todo = q ++ blocks_locks arrival bs ++ unlock ∷ [] ++ messages_locks arrival msgs in
    let p = unlock ∷ unlock ∷ rounds_locks rounds in
    (
      bad_schedule,
      p,
      todo,
      λ js.
          let (rest, same) = stays_blocked p todo (map spawn rs) js in
          (rest, run-append bad_schedule js _ ∙ (rw first (ap (run js) (meets p todo rs) ∙ same))),
    )
