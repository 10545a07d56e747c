-- ===== src/Network/Worker/Returns.antt =====
-- A new block for a node with no child of it in the orphan buffer: the handler does not panic.
use native.Mathlib.Omega.{arith}
use final.Base.{
  ◌+◌, ◌^◌, ◌<◌, ◌≡◌, ◌⊎◌, refl, sym, ◌∙◌, [], ◌∷◌, ◌++◌, some, none, ok, true, false, ltb, nat_eq,
  Bool-cases, Option-cases, inl, inr,
}
use final.Base.HashMap.{get, get-insert_self}
use final.Data.{H256, h256_key, State, Block}
use final.External.{External, IsDocumented}
use final.Address.{to_be_bytes}
use final.Block.{hash, get_parent}
use final.Blockchain
use final.Blockchain.{Blockchain, ico_state, relength, get_block, get_block_state, get_parent_block}
use final.Blockchain.Genesis.{from_public_key_bytes_total}
use final.Blockchain.Growth.{HasStates, Stores, with_block, with_state}
use final.Transaction.{delete_tx_from_mempool}
use final.Transaction.Ledger.{total}
use final.Transaction.Execution.{NoncesFit, execute_tx_returns}
use final.Network.Worker.{
  Worker, check_block_validity, execute_and_insert, insert_if_valid, find_child, adopt_loop,
  cleanup, without_parent, with_parent, handle_new_block,
}

-- The numbers of the chain leave room: one more than the length of a stored block, the sum of the
-- balances of a stored state, and one more than each of its nonces fit in 32 bits.
pub record HasRoom (c : Blockchain) : Type 0 where
  pub lengths : (h : H256) (b : Block) → get c.blocks h ≡ some b → b.length + 1 < 2 ^ 32
  pub balances : (h : H256) (s : State) → get c.block_states h ≡ some s → total s < 2 ^ 32
  pub nonces : (h : H256) (s : State) → get c.block_states h ≡ some s → NoncesFit s

-- What has become of the block: it is stored, it waits for its parent, or it was refused because it
-- is not valid on its parent.
abbrev pub IsPlaced : External → Block → Worker → Worker → Type 0
IsPlaced x b w w' =
    Stores w'.blockchain (hash x b)
    ⊎ (w'.orphan_buffer ≡ w.orphan_buffer ++ b ∷ [])
    ⊎ ((p : Block) × (get_parent_block w.blockchain b ≡ some p)
        × (check_block_validity x b p ≡ false)
        × (w'.blockchain ≡ w.blockchain))

module _ (x : External) where
  relength_returns :
      (c : Blockchain) (b p : Block)
      → get c.blocks (get_parent b) ≡ some p
      → p.length + 1 < 2 ^ 32
      → (b' : Block) × (relength c b ≡ ok b')
  unfolding relength
  relength_returns c b p stands small =
      let fits : ltb (p.length + 1) (2 ^ 32) ≡ true = ground (arith, small) in
      elim (Bool-cases (ltb 1 b.length)) [
        | inl long ↦ rw (long, stands, fits) (_, refl)
        | inr brief ↦ rw brief (_, refl)
      ]

  execute_and_insert_returns :
      (c : Blockchain) (b p : Block)
      → HasStates c
      → HasRoom c
      → get c.blocks (get_parent b) ≡ some p
      → (c' : Blockchain) × (execute_and_insert x c b ≡ ok c') × Stores c' (hash x b)
  unfolding execute_and_insert get_block_state Blockchain.insert
  execute_and_insert_returns c b p states room stands =
      let (s, known) = states (get_parent b) p stands in
      let (executed, ran) =
        execute_tx_returns s b.txs (room.balances (get_parent b) s known)
          (room.nonces (get_parent b) s known) in
      let extended = with_state c (hash x b) executed.0 in
      let (b', sized) =
        relength_returns extended b p stands (room.lengths (get_parent b) p stands) in
      (
        with_block extended (hash x b) b',
        rw (known, ran, sized) refl,
        (b', get-insert_self c.blocks (hash x b) b'),
      )

  pub ico_state_returns : IsDocumented x → (s : State) × (ico_state x ≡ ok s)
  unfolding ico_state
  ico_state_returns doc = rw (from_public_key_bytes_total x (to_be_bytes 0) doc) (_, refl)

  without_parent_returns :
      (b : Block) (w : Worker)
      → IsDocumented x
      → (w' : Worker) × (without_parent x b w ≡ ok w')
        × (Stores w'.blockchain (hash x b) ⊎ (w'.orphan_buffer ≡ w.orphan_buffer ++ b ∷ []))
  unfolding without_parent Blockchain.insert relength
  without_parent_returns b w doc = elim (Bool-cases (nat_eq b.length 1)) [
    | inl one ↦
        let brief : ltb 1 b.length ≡ false = ground (arith, one) in
        let (s, made) = ico_state_returns doc in
        let placed : Worker = record w {
          blockchain = with_state (with_block w.blockchain (hash x b) b) (hash x b) s;
        } in
        (
          placed,
          rw (one, brief, made) refl,
          inl (b, get-insert_self w.blockchain.blocks (hash x b) b),
        )
    | inr other ↦ rw other (_, refl, inr refl)
  ]

  with_parent_returns :
      (b p : Block) (w : Worker)
      → HasStates w.blockchain
      → HasRoom w.blockchain
      → get w.blockchain.blocks (get_parent b) ≡ some p
      → find_child (hash x b) 0 w.orphan_buffer ≡ none
      → (w' : Worker) × (with_parent x b p w ≡ ok w')
        × (Stores w'.blockchain (hash x b)
            ⊎ ((check_block_validity x b p ≡ false) × (w'.blockchain ≡ w.blockchain)))
  unfolding with_parent insert_if_valid adopt_loop cleanup
  with_parent_returns b p w states room stands childless =
      elim (Bool-cases (check_block_validity x b p)) [
        | inl valid ↦
            let (c', done, stored) =
              execute_and_insert_returns w.blockchain b p states room stands in
            (
              record w { blockchain = c' },
              rw (valid, done) (rw (childless, adopt_loop) refl),
              inl stored,
            )
        | inr refused ↦ (w, rw refused (rw (childless, adopt_loop) refl), inr (refused, refl))
      ]

  pub parent_stands :
      (c : Blockchain) (b p : Block)
      → get_parent_block c b ≡ some p
      → get c.blocks (get_parent b) ≡ some p
  unfolding get_parent_block get_block
  parent_stands c b p e = elim (Option-cases (get c.blocks (get_parent b))) [
    | inl missing ↦ cc (sym (rw (missing, get_parent_block) at e))
    | inr (q, found) ↦ found ∙ rw (found, get_parent_block) at e
  ]

  -- Where every stored block has its state and the numbers of the chain leave room, a new block with
  -- no child in the orphan buffer is handled without a panic: it is then stored, or waits at the end
  -- of the orphan buffer, or was refused as not valid on its parent, with the chain as it was.
  pub handle_new_block_places :
      (b : Block) (w : Worker)
      → IsDocumented x
      → HasStates w.blockchain
      → HasRoom w.blockchain
      → find_child (hash x b) 0 w.orphan_buffer ≡ none
      → (w' : Worker) × (handle_new_block x b w ≡ ok w') × IsPlaced x b w w'
  unfolding handle_new_block
  handle_new_block_places b w doc states room childless =
      let pruned : Worker = record w { mempool = delete_tx_from_mempool x w.mempool b.txs } in
      elim (Option-cases (get_parent_block w.blockchain b)) [
        | inl missing ↦
            let (w', done, placed) = without_parent_returns b pruned doc in
            (
              w',
              rw (missing, handle_new_block) done,
              elim placed [ inl stored ↦ inl stored | inr waits ↦ inr (inl waits) ],
            )
        | inr (p, found) ↦
            let (w', done, placed) =
              with_parent_returns b p pruned states room (parent_stands w.blockchain b p found)
                childless in
            (
              w',
              rw (found, handle_new_block) done,
              elim placed [
                | inl stored ↦ inl stored
                | inr (refused, same) ↦ inr (inr (p, found, refused, same))
              ],
            )
      ]
