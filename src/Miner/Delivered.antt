-- ===== src/Miner/Delivered.antt =====
-- From the miner to a peer: what network/worker.rs does there with a block of miner/mod.rs.
use native.Mathlib.Omega.{arith}
use final.Base.{
  ◌+◌, ◌^◌, ◌<◌, ◌≡◌, refl, ap, sym, ◌∙◌, List, [], ◌∷◌, ◌++◌, some, none, ok, true, ltb,
  Bool-cases, inl, inr,
}
use final.Base.HashMap.{get, get-insert_self}
use final.Data.{h256_key, State, Block, Message}
use final.External.{External}
use final.Block.{hash, get_parent}
use final.Blockchain
use final.Blockchain.{Blockchain, relength, get_block, get_block_state, get_parent_block}
use final.Blockchain.Growth.{with_state, with_block}
use final.Transaction.{execute_tx, delete_tx_from_mempool}
use final.Network.Worker.{
  Worker, broadcast, check_block_validity, execute_and_insert, insert_if_valid, find_child,
  adopt_loop, cleanup, with_parent, handle_new_block, receive_blocks, handle_message,
}
use final.Miner.{Miner}
use final.Miner.Mined.{Mined}

module _ (x : External) (p b : Block) (before after : State) (on_parent : get_parent b ≡ hash x p)
    (longer : b.length ≡ p.length + 1) (small : p.length + 1 < 2 ^ 32) where
  -- The length that `insert` gives the block is the one that it has.
  relength-same : (c : Blockchain) → get c.blocks (hash x p) ≡ some p → relength c b ≡ ok b
  unfolding relength
  relength-same c stands =
      let parent = ap (get c.blocks) on_parent ∙ stands in
      let fits : ltb (p.length + 1) (2 ^ 32) ≡ true = ground (arith, small) in
      elim (Bool-cases (ltb 1 b.length)) [
        | inl long ↦ rw (long, parent, fits) (λ i. ok (record b { length = sym longer i }))
        | inr brief ↦ rw brief refl
      ]

  -- The chain with the block and the state after it.
  abbrev extended : Blockchain → Blockchain
  extended c = with_block (with_state c (hash x b) after) (hash x b) b

  insert_if_valid-extended :
      (c : Blockchain)
      → check_block_validity x b p ≡ true
      → get c.blocks (hash x p) ≡ some p
      → get c.block_states (hash x p) ≡ some before
      → execute_tx before b.txs ≡ ok (after, b.txs)
      → insert_if_valid x c b p ≡ ok (extended c)
  unfolding insert_if_valid execute_and_insert Blockchain.insert get_block_state
  insert_if_valid-extended c valid stands known executes =
      let parent_state = ap (get c.block_states) on_parent ∙ known in
      let sized = relength-same (with_state c (hash x b) after) stands in
      rw (valid, parent_state, executes, sized) refl

  parent_found : (c : Blockchain) → get c.blocks (hash x p) ≡ some p → get_parent_block c b ≡ some p
  unfolding get_parent_block get_block
  parent_found c stands =
      let parent = ap (get c.blocks) on_parent ∙ stands in rw (parent, get_parent_block) refl

  with_parent-extended :
      (w : Worker)
      → insert_if_valid x w.blockchain b p ≡ ok (extended w.blockchain)
      → find_child (hash x b) 0 w.orphan_buffer ≡ none
      → with_parent x b p w ≡ ok (record w { blockchain = extended w.blockchain })
  unfolding with_parent adopt_loop cleanup
  with_parent-extended w inserted childless = rw inserted (rw (childless, adopt_loop) refl)

  handle_new_block-extended :
      (w : Worker)
      → insert_if_valid x w.blockchain b p ≡ ok (extended w.blockchain)
      → get w.blockchain.blocks (hash x p) ≡ some p
      → find_child (hash x b) 0 w.orphan_buffer ≡ none
      → handle_new_block x b w
        ≡ ok (record w {
          blockchain = extended w.blockchain;
          mempool = delete_tx_from_mempool x w.mempool b.txs;
        })
  unfolding handle_new_block
  handle_new_block-extended w inserted stands childless =
      rw (parent_found w.blockchain stands, handle_new_block)
        (with_parent-extended (record w { mempool = delete_tx_from_mempool x w.mempool b.txs })
          inserted childless)

-- A peer that stores the parent of a block that the miner found, with the state that the miner has
-- for it, receives the block for the first time, with no child of it among its orphans and a length
-- that fits in 32 bits: it returns, with the block as the miner sent it and the state that the miner
-- computed, the block's transactions gone from its mempool, and the block's hash sent on.
pub handle_message_delivers :
    (x : External) (p b : Block) (m m' : Miner) (genesis : List Block) (w : Worker)
    → Mined x p m m' genesis b
    → p.length + 1 < 2 ^ 32
    → get w.blockchain.blocks (hash x p) ≡ some p
    → get w.blockchain.block_states (hash x p) ≡ get m.blockchain.block_states (hash x p)
    → get w.blockchain.blocks (hash x b) ≡ none
    → find_child (hash x b) 0 w.orphan_buffer ≡ none
    → (w' : Worker) × (handle_message x (Message.blocks (b ∷ [])) w ≡ ok w')
      × (get w'.blockchain.blocks (hash x b) ≡ some b)
      × (get w'.blockchain.block_states (hash x b) ≡ get m'.blockchain.block_states (hash x b))
      × (w'.mempool ≡ delete_tx_from_mempool x w.mempool b.txs)
      × (w'.sent ≡ w.sent ++ broadcast (Message.new_block_hashes (hash x b ∷ [])) ∷ [])
unfolding handle_message receive_blocks get_block
handle_message_delivers x p b m m' genesis w mined small stands agree fresh childless =
    let inserted =
      insert_if_valid-extended x p b mined.before mined.after mined.parent mined.longer small
        w.blockchain mined.valid stands (agree ∙ mined.parent_state) mined.executes in
    let handled =
      handle_new_block-extended x p b mined.before mined.after mined.parent mined.longer small w
        inserted stands childless in
    (
      record w {
        blockchain =
            extended x p b mined.before mined.after mined.parent mined.longer small w.blockchain;
        mempool = delete_tx_from_mempool x w.mempool b.txs;
        sent = w.sent ++ broadcast (Message.new_block_hashes (hash x b ∷ [])) ∷ [];
      },
      rw (fresh, receive_blocks) (rw handled refl),
      get-insert_self w.blockchain.blocks (hash x b) b,
      get-insert_self w.blockchain.block_states (hash x b) mined.after ∙ sym mined.stored_state,
      refl,
      refl,
    )
