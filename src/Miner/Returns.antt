-- ===== src/Miner/Returns.antt =====
-- miner/mod.rs, lines 174 to 219: a round of mining does not panic.
use native.Mathlib.Omega.{arith}
use final.Base.{ℕ, ◌+◌, ◌^◌, ◌<◌, ◌≡◌, refl, ok, some, true, ltb, Bool-cases, inl, inr}
use final.Base.HashMap.{get}
use final.Data.{H256, h256_key, State, Block}
use final.External.{External}
use final.Hash.{le}
use final.Block.{hash, get_difficulty}
use final.Blockchain.{get_block_state}
use final.Transaction.Ledger.{total}
use final.Transaction.Execution.{NoncesFit, execute_tx_returns}
use final.Miner.{Miner, candidate, get_block_template, finish_block, pick_txs, mine}

module _ (x : External) where
  candidate_returns :
      (nonce timestamp : ℕ) (root : H256) (p : Block)
      → p.length + 1 < 2 ^ 32
      → (b : Block) × (candidate x nonce timestamp root p ≡ ok b)
  unfolding candidate get_block_template
  candidate_returns nonce timestamp root p small =
      let fits : ltb (p.length + 1) (2 ^ 32) ≡ true = ground arith in rw fits (_, refl)

  finish_block_returns :
      (g p b : Block) (s : State) (m : Miner)
      → get m.blockchain.block_states (hash x p) ≡ some s
      → total s < 2 ^ 32
      → NoncesFit s
      → (m' : Miner) × (finish_block x g p b m ≡ ok m')
  unfolding finish_block get_block_state
  finish_block_returns g p b s m known small fit =
      let (executed, ran) = execute_tx_returns s (pick_txs x m.mempool) small fit in
      rw (known, ran) (_, refl)

  -- A round of mining on the parent `p` returns: no lookup fails and no addition overflows, if the
  -- length after that of `p` fits in 32 bits, the state of `p` is stored, and in that state the sum
  -- of all balances, and every nonce plus one, fit in 32 bits.
  pub mine_returns :
      (g p : Block) (s : State) (nonce timestamp : ℕ) (root : H256) (m : Miner)
      → p.length + 1 < 2 ^ 32
      → get m.blockchain.block_states (hash x p) ≡ some s
      → total s < 2 ^ 32
      → NoncesFit s
      → (m' : Miner) × (mine x g nonce timestamp root p m ≡ ok m')
  unfolding mine
  mine_returns g p s nonce timestamp root m short known small fit =
      let (b, made) = candidate_returns nonce timestamp root p short in
      let (finished, done) = finish_block_returns g p b s m known small fit in
      elim (Bool-cases (le (hash x b) (get_difficulty b))) [
        | inl found ↦ rw (made, found, done) (finished, refl)
        | inr missed ↦ rw (made, missed) (m, refl)
      ]
