-- ===== src/Network/Worker/Room.antt =====
-- Insertions in order that do not panic: the length of the first parent, and the balances and nonces
-- of its state, leave room for the blocks.
use native.Mathlib.Omega.{arith}
use mathlib.Core.Path.{subst}
use final.Base.{
  ℕ, suc, ◌+◌, ◌^◌, ◌≤◌, ◌<◌, ◌≡◌, refl, sym, List, [], ◌∷◌, some, true, ok, All, length, ltb,
  Bool-cases, inl, inr,
}
use final.Base.HashMap.{get, get-insert_self}
use final.Data.{H256, h256_key, Address, address_key, State, Block}
use final.External.{External}
use final.Block.{hash, get_parent}
use final.Blockchain
use final.Blockchain.{Blockchain, relength, get_block_state}
use final.Blockchain.Growth.{with_block, with_state}
use final.Transaction.{nonce_or_zero, execute_tx}
use final.Transaction.Ledger.{total, balance-le-total}
use final.Transaction.Execution.{execute_tx_returns}
use final.Transaction.Conservation.{IsDisjoint, execute_tx_conserves}
use final.Transaction.Bounds.{execute_tx-IsBounded}
use final.Network.Worker.{check_block_validity, execute_and_insert, insert_if_valid}
use final.Network.Worker.Backwards.{insert_in_order}
use final.Network.Worker.Stored.{AreValid}

-- Each block names the one before it as its parent, and the first one names `h`.
abbrev pub IsOn : External → H256 → List Block → Type 0
IsOn x h [] = Unit
IsOn x h (b ∷ bs) = (get_parent b ≡ h) × IsOn x (hash x b) bs

-- What `n` blocks on a stored block need of it and of its state.
pub record Leaves (n : ℕ) (c : Blockchain) (h : H256) : Type 0 where
  pub block : Block
  pub stored : get c.blocks h ≡ some block
  pub height : block.length + n < 2 ^ 32
  pub state : State
  pub known : get c.block_states h ≡ some state
  pub coins : total state < 2 ^ 32
  pub nonces : (a : Address) → nonce_or_zero (get state a) + n < 2 ^ 32

-- The length of a block as `insert` stores it.
relength-le :
    (c : Blockchain) (b p : Block)
    → get c.blocks (get_parent b) ≡ some p
    → p.length + 1 < 2 ^ 32
    → (b' : Block) × (relength c b ≡ ok b') × (b'.length ≤ p.length + 1)
unfolding relength
relength-le c b p stands small =
    let fits : ltb (p.length + 1) (2 ^ 32) ≡ true = ground (arith, small) in
    elim (Bool-cases (ltb 1 b.length)) [
      | inl long ↦ rw (long, stands, fits) (_, refl, omega arith)
      | inr brief ↦ rw brief (_, refl, ground (arith, brief))
    ]

-- A block without an account that two of its transactions share keeps the sum of the balances, and a
-- nonce grows by one at most.
executed_Leaves :
    (n : ℕ) (s : State) (b : Block)
    → total s < 2 ^ 32
    → ((a : Address) → nonce_or_zero (get s a) + suc n < 2 ^ 32)
    → IsDisjoint b.txs
    → (r : _) × (execute_tx s b.txs ≡ ok r)
      × (total r.0 < 2 ^ 32)
      × ((a : Address) → nonce_or_zero (get r.0 a) + n < 2 ^ 32)
executed_Leaves n s b coins nonces apart =
    let (r, ran) = execute_tx_returns s b.txs coins (λ a. omega (arith, nonces a)) in
    let kept = execute_tx_conserves s r.0 r.1 b.txs apart ran in
    let bounded =
      execute_tx-IsBounded s r.0 r.1 b.txs
        (λ a. (omega (arith, nonces a), omega (arith, balance-le-total s a, coins))) ran in
    (r, ran, omega (arith, kept, coins), λ a. omega (arith, bounded a, nonces a))

module _ (x : External) where
  insert_Leaves :
      (n : ℕ) (c : Blockchain) (b p : Block)
      → check_block_validity x b p ≡ true
      → Leaves (suc n) c (get_parent b)
      → IsDisjoint b.txs
      → (c' : Blockchain) × (insert_if_valid x c b p ≡ ok c') × Leaves n c' (hash x b)
  unfolding insert_if_valid execute_and_insert get_block_state Blockchain.insert
  insert_Leaves n c b p valid leaves apart =
      let (r, ran, coins, nonces) =
        executed_Leaves n leaves.state b leaves.coins leaves.nonces apart in
      let extended = with_state c (hash x b) r.0 in
      let (b', sized, low) =
        relength-le extended b leaves.block leaves.stored (omega (arith, leaves.height)) in
      (
        with_block extended (hash x b) b',
        rw (valid, leaves.known, ran, sized) refl,
        record {
          block = b';
          stored = get-insert_self c.blocks (hash x b) b';
          height = omega (arith, low, leaves.height);
          state = r.0;
          known = get-insert_self c.block_states (hash x b) r.0;
          coins = coins;
          nonces = nonces;
        },
      )

  -- Blocks that name each other in turn, the first one on a stored block that leaves room for as many
  -- blocks, each valid on the one before it and with no account that two of its transactions share:
  -- their insertions in order do not panic.
  pub insert_in_order_returns :
      (h : H256) (p : Block) (bs : List Block) (c : Blockchain)
      → IsOn x h bs
      → AreValid x p bs
      → All (λ b. IsDisjoint b.txs) bs
      → Leaves (length bs) c h
      → (c' : Blockchain) × (insert_in_order x c p bs ≡ ok c')
  unfolding insert_in_order
  insert_in_order_returns h p [] c on valid apart leaves = (c, refl)
  insert_in_order_returns h p (b ∷ bs) c (named, on) (valid, more) (apart, others) leaves =
      let (c₁, first, left) =
        insert_Leaves (length bs) c b p valid
          (subst (Leaves (suc (length bs)) c) (sym named) leaves) apart in
      let (c', rest) = insert_in_order_returns (hash x b) b bs c₁ on more others left in
      (c', rw first rest)
