-- ===== src/Network/Worker/Adoption.antt =====
-- The search for orphans in `handle_new_block` ends.
use native.Mathlib.Omega.{arith}
use final.Base.{
  ℕ, zero, suc, ◌+◌, ◌<◌, ◌≤◌, ◌≡◌, ◌≢◌, refl, ap, List, [], ◌∷◌, ◌++◌, length, leb, if◌then◌else◌,
  All, Run, ok, panic, no_fuel, ◌>>=◌, unwrap, Option, none, some, Bool-cases, Option-cases, inl,
  inr, ==_eq, ◌==◌, nat_eq,
}
use mathlib.Core.Path.{subst}
use final.Data.{H256, h256_key, State, SignedTransaction, Block}
use final.External.{External}
use final.Block.{hash, get_parent}
use final.Blockchain
use final.Blockchain.{Blockchain, relength, get_block_state, get_parent_block, ico_state}
use final.Address.{from_public_key_bytes, last_20_bytes}
use final.Transaction.{
  execute_tx, execute_loop, execute_one, write_accounts, delete_tx_from_mempool,
}
use final.Network.Worker.{
  Worker, remove, find_child, insert_if_valid, execute_and_insert, check_block_validity, adopt_loop,
  cleanup, without_parent, with_parent, handle_new_block,
}

-- Code without a loop on fuel does not use up fuel.
bind_ends :
    {A : Type 0} {B : Type 0} (m : Run A) (f : A → Run B)
    → m ≢ no_fuel
    → ((a : A) → f a ≢ no_fuel)
    → (m >>= f) ≢ no_fuel
bind_ends (ok a) f hm hf e = hf a e
bind_ends panic f hm hf e = cc
bind_ends no_fuel f hm hf e = hm refl

unwrap_ends : {A : Type 0} (o : Option A) → unwrap o ≢ no_fuel
unwrap_ends none e = cc
unwrap_ends (some a) e = cc

execute_one_ends :
    (p : State) (acc : State × List SignedTransaction) (tx : SignedTransaction)
    → execute_one p acc tx ≢ no_fuel
unfolding execute_one write_accounts
execute_one_ends p acc tx e = ground arith

execute_loop_ends :
    (p : State) (acc : State × List SignedTransaction) (txs : List SignedTransaction)
    → execute_loop p acc txs ≢ no_fuel
unfolding execute_loop
execute_loop_ends p acc [] e = cc
execute_loop_ends p acc (tx ∷ txs) e =
    bind_ends (execute_one p acc tx) (λ next. execute_loop p next txs) (execute_one_ends p acc tx)
      (λ next. execute_loop_ends p next txs) e

insert_ends : (x : External) (c : Blockchain) (b : Block) → Blockchain.insert x c b ≢ no_fuel
unfolding Blockchain.insert relength
insert_ends x c b e = ground arith

insert_if_valid_ends :
    (x : External) (c : Blockchain) (b p : Block) → insert_if_valid x c b p ≢ no_fuel
unfolding insert_if_valid execute_and_insert execute_tx
insert_if_valid_ends x c b p e = elim (Bool-cases (check_block_validity x b p)) [
  | inl good ↦
      bind_ends (unwrap (get_block_state c (get_parent b))) _
        (unwrap_ends (get_block_state c (get_parent b)))
        (λ s.
          bind_ends (execute_loop s (s, []) b.txs) _ (execute_loop_ends s (s, []) b.txs)
            (λ executed. insert_ends x _ b))
        (rw good at e)
  | inr bad ↦ cc (rw bad at e)
]

module _ (rank : H256 → ℕ) where
  -- The orphans whose parent ranks at least `r`.
  waiting : ℕ → List Block → ℕ
  waiting r [] = 0
  waiting r (b ∷ bs) = (if leb r (rank (get_parent b)) then 1 else 0) + waiting r bs

  waiting-le : (r s : ℕ) (bs : List Block) → r ≤ s → waiting s bs ≤ waiting r bs
  unfolding waiting
  waiting-le r s [] h = omega arith
  waiting-le r s (b ∷ bs) h = ground (arith, waiting-le r s bs h)

  waiting-le-length : (r : ℕ) (bs : List Block) → waiting r bs ≤ length bs
  unfolding waiting
  waiting-le-length r [] = omega arith
  waiting-le-length r (b ∷ bs) = ground (arith, waiting-le-length r bs)

  -- An orphan that is found does not wait for a hash that ranks higher than its parent.
  waiting-found :
      (h : H256) (s i j : ℕ) (bs : List Block) (b : Block)
      → find_child h i bs ≡ some (j, b)
      → rank h < s
      → waiting s bs < waiting (rank h) bs
  unfolding waiting find_child
  waiting-found h s i j [] b e lt = cc
  waiting-found h s i j (a ∷ bs) b e lt = elim (Bool-cases (get_parent a == h)) [
    | inl same ↦
        ground
          (arith, ap rank (==_eq (get_parent a) h same), waiting-le (rank h) s bs (omega arith))
    | inr other ↦ ground (arith, waiting-found h s (i + 1) j bs b (rw other at e) lt)
  ]

  module _ (x : External) where
    -- A block ranks higher than its parent.
    abbrev Rises : Block → Type 0
    Rises b = rank (get_parent b) < rank (hash x b)

    find_child-Rises :
        (h : H256) (i j : ℕ) (bs : List Block) (b : Block)
        → All Rises bs
        → find_child h i bs ≡ some (j, b)
        → rank h < rank (hash x b)
    unfolding find_child
    find_child-Rises h i j [] b all e = cc
    find_child-Rises h i j (a ∷ bs) b all e = elim (Bool-cases (get_parent a == h)) [
      | inl same ↦
          let found : a ≡ b = cc (rw same at e) in
          subst (λ (k : Block). rank h < rank (hash x k)) found
            (omega (arith, all.0, ap rank (==_eq (get_parent a) h same)))
      | inr other ↦ find_child-Rises h (i + 1) j bs b all.1 (rw other at e)
    ]

    adopt_loop_ends :
        (fuel : ℕ) (orphans : List Block) (c : Blockchain) (b : Block) (is : List ℕ)
        → All Rises orphans
        → waiting (rank (hash x b)) orphans < fuel
        → adopt_loop x fuel orphans c b is ≢ no_fuel
    unfolding adopt_loop
    adopt_loop_ends zero orphans c b is all lt e = omega (arith, lt)
    adopt_loop_ends (suc fuel) orphans c b is all lt e =
        elim (Option-cases (find_child (hash x b) 0 orphans)) [
          | inl stops ↦ cc (rw (stops, adopt_loop) at e)
          | inr (found, adopts) ↦
              let higher = find_child-Rises (hash x b) 0 found.0 orphans found.1 all adopts in
              let fewer =
                waiting-found (hash x b) (rank (hash x found.1)) 0 found.0 orphans found.1 adopts
                  higher in
              bind_ends (insert_if_valid x c found.1 b) _ (insert_if_valid_ends x c found.1 b)
                (λ c'.
                  adopt_loop_ends fuel orphans c' found.1 (is ++ found.0 ∷ []) all
                    (omega (arith, fewer, lt)))
                (rw (adopts, adopt_loop) at e)
        ]

remove_ends : {A : Type 0} (xs : List A) (i : ℕ) → remove xs i ≢ no_fuel
unfolding remove
remove_ends xs i e = ground arith

cleanup_ends : (orphans : List Block) (is : List ℕ) → cleanup orphans is ≢ no_fuel
unfolding cleanup
cleanup_ends orphans [] e = cc
cleanup_ends orphans (i ∷ is) e =
    bind_ends (remove orphans i) _ (remove_ends orphans i) (λ kept. cleanup_ends kept is) e

ico_state_ends : (x : External) → ico_state x ≢ no_fuel
unfolding ico_state from_public_key_bytes last_20_bytes
ico_state_ends x e = ground arith

without_parent_ends : (x : External) (b : Block) (w : Worker) → without_parent x b w ≢ no_fuel
unfolding without_parent
without_parent_ends x b w e = elim (Bool-cases (nat_eq b.length 1)) [
  | inl one ↦
      bind_ends (Blockchain.insert x w.blockchain b) _ (insert_ends x w.blockchain b)
        (λ c. bind_ends (ico_state x) _ (ico_state_ends x) (λ s same. cc)) (rw one at e)
  | inr other ↦ cc (rw other at e)
]

-- The handler of a new block ends, in a result or a panic: the search for orphans comes to its end
-- with one round for each orphan and a last one. Some rank on hashes puts every orphan above its
-- parent, as it is where no orphan is its own ancestor.
pub handle_new_block_ends :
    (x : External) (rank : H256 → ℕ) (b : Block) (w : Worker)
    → All (λ a. rank (get_parent a) < rank (hash x a)) w.orphan_buffer
    → handle_new_block x b w ≢ no_fuel
unfolding handle_new_block with_parent
handle_new_block_ends x rank b w all e =
    let pruned = record w { mempool = delete_tx_from_mempool x w.mempool b.txs } in
    elim (Option-cases (get_parent_block w.blockchain b)) [
      | inl missing ↦ without_parent_ends x b pruned (rw (missing, handle_new_block) at e)
      | inr (p, found) ↦
          bind_ends (insert_if_valid x w.blockchain b p) _ (insert_if_valid_ends x w.blockchain b p)
            (λ c.
              bind_ends (adopt_loop x (suc (length w.orphan_buffer)) w.orphan_buffer c b []) _
                (adopt_loop_ends rank x (suc (length w.orphan_buffer)) w.orphan_buffer c b [] all
                  (omega (arith, waiting-le-length rank (rank (hash x b)) w.orphan_buffer)))
                (λ adopted.
                  bind_ends (cleanup w.orphan_buffer adopted.1) _
                    (cleanup_ends w.orphan_buffer adopted.1) (λ orphans same. cc)))
            (rw (found, handle_new_block) at e)
    ]
