-- ===== src/Tests/Queries.antt =====
-- Questions on a chain of two blocks, the second with one transaction.
use final.Base.{
  ℕ, ◌≡◌, ◌≤◌, ◌<◌, ◌⊎◌, refl, List, [], ◌∷◌, length, ok, some, bytes_eq, Bool-cases, inl, inr, sym,
  ◌==◌,
}
use final.Base.HashMap.{get}
use final.Data.{H256, h256_key, Block, State}
use final.Blockchain.{Blockchain, tip}
use final.Blockchain.Invariant.{IsLinked}
use final.Blockchain.Growth.{HasStates}
use final.Api.{state, longest_chain_tx, accounts, block_count_too_large}
use final.Api.Answers.{StateAt, state-StateAt}
use final.Api.Transactions.{TextsAt, longest_chain_tx-TextsAt}
use final.Tests.Toy.{toy, toy-IsDocumented, toy_hash, toy_address}
use final.Tests.Chain.{genesis, longer, longer-IsLinked, short_blocks}

abbrev known : Blockchain
known = record longer {
  block_states =
      (toy_hash 1, (toy_address 1, (0, 100)) ∷ [])
      ∷ (toy_hash 2, (toy_address 1, (1, 70)) ∷ (toy_address 2, (0, 30)) ∷ [])
      ∷ [];
}

known-IsLinked : IsLinked toy known
known-IsLinked = record {
  distinct = longer-IsLinked.distinct;
  keyed = longer-IsLinked.keyed;
  positive = longer-IsLinked.positive;
  rooted = longer-IsLinked.rooted;
  linked = longer-IsLinked.linked;
}

known-HasStates : HasStates known
unfolding get
known-HasStates h b e = elim (Bool-cases (toy_hash 1 == h)) [
  | inl first ↦ ((toy_address 1, (0, 100)) ∷ [], rw first refl)
  | inr other ↦ elim (Bool-cases (toy_hash 2 == h)) [
    | inl second ↦
        ((toy_address 1, (1, 70)) ∷ (toy_address 2, (0, 30)) ∷ [], rw (other, second) refl)
    | inr neither ↦ cc (sym (rw (other, neither) at e))
  ]
]

state-StateAt_example :
    (top : H256) × (block : Block) × (tip toy known ≡ ok top)
    × (get known.blocks top ≡ some block)
    × (((1 < block.length)
          × ((s : State) × (state toy 3 1 known ≡ ok (accounts s)) × StateAt known 2 s))
        ⊎ ((block.length ≤ 1) × (state toy 3 1 known ≡ ok block_count_too_large)))
unfolding get bytes_eq
state-StateAt_example =
    state-StateAt toy known (toy_hash 1) genesis 3 1 toy-IsDocumented known-IsLinked known-HasStates
      refl short_blocks

longest_chain_tx-TextsAt_example :
    (top : H256) × (block : Block) × (texts : List (List (List ℕ))) × (tip toy known ≡ ok top)
    × (get known.blocks top ≡ some block)
    × (longest_chain_tx toy 3 known ≡ ok texts)
    × (length texts ≡ block.length)
    × ((n : ℕ) → n < length texts → TextsAt toy known texts n)
unfolding get bytes_eq
longest_chain_tx-TextsAt_example =
    longest_chain_tx-TextsAt toy known (toy_hash 1) genesis 3 toy-IsDocumented known-IsLinked refl
      short_blocks
