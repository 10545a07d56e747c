-- ===== src/Tests/NewBlocks.antt =====
-- A node with the genesis block, and new blocks for it.
use native.Mathlib.Omega.{arith}
use final.Base.{◌≡◌, refl, List, [], ◌∷◌, panic, bytes_eq, no_fuel, take, ◌≢◌}
use final.Base.HashMap.{get, insert as put}
use final.Data.{h256_key, Block, address_key}
use final.Block.{hash, hash_header}
use final.Hash.{gt, cmp, from_be_bytes}
use final.Blockchain.{Blockchain, insert, get_block, get_parent_block, get_block_state}
use final.Network.Worker.{Worker, handle_new_block, find_child, check_block_validity}
use final.Network.Worker.Orphans.{handle_new_block_invalid}
use final.Network.Worker.Adoption.{handle_new_block_ends}
use final.Tests.Toy.{toy, toy_hash, toy_block, toy_address}
use final.Tests.Chain.{genesis}
use final.Tests.Node.{node}

-- A child of the genesis block, its child, and the child of that.
abbrev pub second : Block
second = toy_block 2 2 1 []

abbrev pub third : Block
third = toy_block 3 3 2 []

abbrev pub fourth : Block
fourth = toy_block 4 4 3 []

-- The chain up to the second, the third and the fourth block.
abbrev to_second : Blockchain
to_second = record {
  blocks = (toy_hash 1, genesis) ∷ (toy_hash 2, second) ∷ [];
  block_states =
      (toy_hash 1, (toy_address 1, (0, 100)) ∷ [])
      ∷ (toy_hash 2, (toy_address 1, (0, 100)) ∷ [])
      ∷ [];
}

abbrev to_third : Blockchain
to_third = record {
  blocks = (toy_hash 1, genesis) ∷ (toy_hash 2, second) ∷ (toy_hash 3, third) ∷ [];
  block_states =
      (toy_hash 1, (toy_address 1, (0, 100)) ∷ [])
      ∷ (toy_hash 2, (toy_address 1, (0, 100)) ∷ [])
      ∷ (toy_hash 3, (toy_address 1, (0, 100)) ∷ [])
      ∷ [];
}

abbrev pub to_fourth : Blockchain
to_fourth = record {
  blocks =
      (toy_hash 1, genesis)
      ∷ (toy_hash 2, second)
      ∷ (toy_hash 3, third)
      ∷ (toy_hash 4, fourth)
      ∷ [];
  block_states =
      (toy_hash 1, (toy_address 1, (0, 100)) ∷ [])
      ∷ (toy_hash 2, (toy_address 1, (0, 100)) ∷ [])
      ∷ (toy_hash 3, (toy_address 1, (0, 100)) ∷ [])
      ∷ (toy_hash 4, (toy_address 1, (0, 100)) ∷ [])
      ∷ [];
}

-- a node that waits for the second block
abbrev waiting : List Block → Worker
waiting orphans = record node { orphan_buffer = orphans }

handle_new_block_ends_example : handle_new_block toy second (waiting (third ∷ [])) ≢ no_fuel
unfolding hash hash_header from_be_bytes
handle_new_block_ends_example =
    handle_new_block_ends toy (λ h. from_be_bytes 0 (take 13 h.bytes)) second (waiting (third ∷ []))
      (omega arith, tt)

-- A block whose hash is past its difficulty.
abbrev hard : Block
hard = record second { header = record (second.header) { nonce = 200; difficulty = toy_hash 100 } }

abbrev easy : Block
easy = record third {
  header = record (third.header) { parent = toy_hash 200; difficulty = toy_hash 100 };
}

handle_new_block_invalid_example : handle_new_block toy hard (waiting (easy ∷ [])) ≡ panic
unfolding get_parent_block get_block get_block_state get find_child check_block_validity gt cmp
    from_be_bytes hash hash_header bytes_eq
handle_new_block_invalid_example =
    handle_new_block_invalid toy hard genesis easy 0 (waiting (easy ∷ [])) refl refl refl refl refl
