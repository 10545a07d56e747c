-- ===== src/Api.antt =====
-- api/mod.rs: the answers on the longest chain and on the state after one of its blocks.
pub mod Heights
pub mod Answers
pub mod Transactions
pub mod Requests
use final.Base.{
  ℕ, ◌-◌, Option, none, some, List, [], ◌∷◌, map, reverse, length, get_elem?, leb, true, false, Run,
  ok, ◌>>=◌, unwrap,
}
use final.Data.{H256, State, Block}
use final.External.{External}
use final.Hash.{display}
use final.Block.{hash_signed}
use final.Blockchain.{Blockchain, all_blocks_in_longest_chain, get_block, get_block_state}

-- `/blockchain/longest-chain`
unfoldable pub longest_chain : External → ℕ → Blockchain → Run (List (List ℕ))
longest_chain x fuel c = all_blocks_in_longest_chain x fuel c >>= λ v. ok (map (display none) v)

-- the inner loop of `/blockchain/longest-chain-tx`
unfoldable pub block_txs : External → Block → List (List ℕ)
block_txs x block = map (λ tx. display none (hash_signed x tx)) block.txs

-- its outer loop
unfoldable pub chain_txs : External → Blockchain → List H256 → Run (List (List (List ℕ)))
unfolding block_txs
chain_txs x c [] = ok []
chain_txs x c (block_hash ∷ hashes) = unwrap (get_block c block_hash) >>= λ block.
    chain_txs x c hashes >>= λ all_tx. ok (block_txs x block ∷ all_tx)

-- `/blockchain/longest-chain-tx`
unfoldable pub longest_chain_tx : External → ℕ → Blockchain → Run (List (List (List ℕ)))
unfolding chain_txs
longest_chain_tx x fuel c = all_blocks_in_longest_chain x fuel c >>= λ v. chain_txs x c (reverse v)

-- The answers of `/blockchain/state`: its two error messages, or the accounts.
pub data StateAnswer : Type 0 where
  block_count_too_large invalid_block_count : StateAnswer
  accounts : State → StateAnswer

abbrev answer : Option State → StateAnswer
answer none = invalid_block_count
answer (some target_state) = accounts target_state

-- `/blockchain/state`, for a block count that has been parsed
unfoldable pub state : External → ℕ → ℕ → Blockchain → Run StateAnswer
state x fuel block c = all_blocks_in_longest_chain x fuel c >>= λ longest_chain_hashes.
    elim (leb (length longest_chain_hashes) block) [
      | true ↦ ok block_count_too_large
      | false ↦
          unwrap (get_elem? longest_chain_hashes (length longest_chain_hashes - block - 1))
          >>= λ target_hash. ok (answer (get_block_state c target_hash))
    ]
