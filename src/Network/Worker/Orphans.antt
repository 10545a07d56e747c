-- ===== src/Network/Worker/Orphans.antt =====
-- The orphan buffer: how one orphan joins the chain, and how two in a row make the cleanup panic.
use native.Mathlib.Omega.{arith}
use final.Base.{
  refl, false, true, ℕ, zero, suc, ◌+◌, ◌<◌, ◌≡◌, ap, List, [], ◌∷◌, Bool-cases, inl, inr, none,
  some, ok, panic, ◌==◌, length, remove_at, ltb, some_inj,
}
use final.Blockchain.{get_block_state, Blockchain, get_parent_block}
use final.Network.Worker.{
  check_block_validity, execute_and_insert, Worker, handle_new_block, with_parent, insert_if_valid,
  find_child, adopt_loop, cleanup,
}
use final.Data.{H256, h256_key, Block}
use final.External.{External}
use final.Block.{hash, get_parent}
use final.Transaction.{delete_tx_from_mempool}

find_child-lt :
    (h : H256) (start i : ℕ) (orphans : List Block) (a : Block)
    → find_child h start orphans ≡ some (i, a)
    → i < start + length orphans
unfolding find_child
find_child-lt h start i [] a e = cc
find_child-lt h start i (b ∷ orphans) a e = elim (Bool-cases (get_parent b == h)) [
  | inl child ↦ omega (arith, ap (λ (q : ℕ × Block). q.0) (some_inj (rw child at e)))
  | inr other ↦ omega (arith, find_child-lt h (start + 1) i orphans a (rw other at e))
]

adopt_loop-one :
    (x : External) (fuel i : ℕ) (orphans : List Block) (n a : Block) (c c' : Blockchain)
    → 0 < fuel
    → find_child (hash x n) 0 orphans ≡ some (i, a)
    → find_child (hash x a) 0 orphans ≡ none
    → insert_if_valid x c a n ≡ ok c'
    → adopt_loop x (suc fuel) orphans c n [] ≡ ok (c', i ∷ [])
unfolding adopt_loop
adopt_loop-one x zero i orphans n a c c' pos child last second = absurd (omega arith)
adopt_loop-one x (suc fuel) i orphans n a c c' pos child last second =
    rw (child, adopt_loop) (rw second (rw (last, adopt_loop)))

cleanup-one :
    (i : ℕ) (orphans : List Block)
    → i < length orphans
    → cleanup orphans (i ∷ []) ≡ ok (remove_at i orphans)
unfolding cleanup
cleanup-one i orphans lt = let inside : ltb i (length orphans) ≡ true = ground arith in rw inside

module _ (x : External) (n p a : Block) (w : Worker) where
  -- A block with a stored parent, a child `a` of it in the orphan buffer, and no child of `a` there.
  -- If the guarded insertion of the one and then of the other returns, the handler returns their
  -- chain, the buffer without the place of `a`, and the mempool without the block's transactions.
  pub handle_new_block_one_orphan :
      (i : ℕ) (c₁ c₂ : Blockchain)
      → get_parent_block w.blockchain n ≡ some p
      → find_child (hash x n) 0 w.orphan_buffer ≡ some (i, a)
      → find_child (hash x a) 0 w.orphan_buffer ≡ none
      → insert_if_valid x w.blockchain n p ≡ ok c₁
      → insert_if_valid x c₁ a n ≡ ok c₂
      → handle_new_block x n w
        ≡ ok (record w {
          blockchain = c₂;
          orphan_buffer = remove_at i w.orphan_buffer;
          mempool = delete_tx_from_mempool x w.mempool n.txs;
        })
  unfolding handle_new_block with_parent
  handle_new_block_one_orphan i c₁ c₂ parent child last first second =
      let inside = find_child-lt (hash x n) 0 i w.orphan_buffer a child in
      rw (parent, handle_new_block)
        (rw (
          first,
          adopt_loop-one x (length w.orphan_buffer) i w.orphan_buffer n a c₁ c₂
              (omega (arith, inside)) child last second,
          cleanup-one i w.orphan_buffer (omega (arith, inside)),
        ))

-- A new block with a stored parent that fails the check of its validity, with a first child in the
-- orphan buffer that passes it: if no state is stored for the child's parent, the handler panics.
pub handle_new_block_invalid :
    (x : External) (n p a : Block) (i : ℕ) (w : Worker)
    → get_parent_block w.blockchain n ≡ some p
    → check_block_validity x n p ≡ false
    → find_child (hash x n) 0 w.orphan_buffer ≡ some (i, a)
    → check_block_validity x a n ≡ true
    → get_block_state w.blockchain (get_parent a) ≡ none
    → handle_new_block x n w ≡ panic
unfolding handle_new_block with_parent insert_if_valid execute_and_insert
handle_new_block_invalid x n p a i w parent invalid child valid unknown =
    rw (parent, handle_new_block) (rw (invalid, child, adopt_loop) (rw valid (rw unknown refl)))
