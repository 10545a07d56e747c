-- ===== src/Tests/Chain.antt =====
-- A chain of a genesis block and its child.
use native.Mathlib.Omega.{arith}
use final.Base.{ℕ, ◌≤◌, ◌<◌, ◌≡◌, ◌≢◌, ◌%◌, ◌∙◌, refl, ap, [], ◌∷◌, ok, some, bytes_eq}
use final.Base.HashMap.{get, insert as put}
use final.Data.{H256, h256_key, Address, Block}
use final.Block.{hash, hash_header, get_parent, do_generate_random_block}
use final.Address.{from_public_key_bytes, to_be_bytes}
use final.Blockchain.{Blockchain, new, insert, tip, all_blocks_in_longest_chain, get_block_state}
use final.Blockchain.Invariant.{IsLinked, extended-IsLinked, insert-IsLinked}
use final.Blockchain.Tip.{tip_longest}
use final.Blockchain.Chain.{TipDescent, all_blocks_in_longest_chain-TipDescent}
use final.Blockchain.Genesis.{get-single, single-IsLinked, new_starts_chain}
use final.Tests.Toy.{toy, toy-IsDocumented, toy_hash, toy_address, toy_block}

-- hashes of different numbers differ
pub toy_hash_ne : (m n : ℕ) → m % 256 ≢ n % 256 → toy_hash m ≢ toy_hash n
toy_hash_ne m n ne e = ne (cc e)

abbrev pub genesis : Block
genesis = toy_block 1 1 0 []

abbrev pub start : Blockchain
start = record {
  blocks = (toy_hash 1, genesis) ∷ [];
  block_states = (toy_hash 1, (toy_address 1, (0, 100)) ∷ []) ∷ [];
}

pub start-IsLinked : IsLinked toy start
unfolding hash hash_header
start-IsLinked = single-IsLinked toy genesis refl (toy_hash_ne 0 1 (omega arith)) start.block_states

new_starts_chain_example :
    (c : Blockchain) × (ico : Address) × (new toy (toy_hash 0) 1 0 (toy_hash 0) ≡ ok c)
    × (from_public_key_bytes toy (to_be_bytes 0) ≡ ok ico)
    × (tip toy c ≡ ok (toy_hash 1))
    × (all_blocks_in_longest_chain toy 2 c ≡ ok (toy_hash 1 ∷ []))
    × (get_block_state c (toy_hash 1) ≡ some ((ico, (0, 100)) ∷ []))
    × IsLinked toy c
unfolding hash hash_header do_generate_random_block
new_starts_chain_example =
    new_starts_chain toy (toy_hash 0) 1 0 (toy_hash 0) 0 toy-IsDocumented
      (toy_hash_ne 0 1 (omega arith))

-- a child that claims the length 9
abbrev child : Block
child = toy_block 9 2 1 []

-- no root names the child as its parent
pub unnamed :
    (h : H256) (g : Block)
    → get start.blocks h ≡ some g
    → g.length ≡ 1
    → get_parent g ≢ hash toy child
unfolding hash hash_header
unnamed h g e root named =
    toy_hash_ne 0 2 (omega arith)
      (ap (λ (k : Block). get_parent k) (get-single (toy_hash 1) h genesis g e).1 ∙ named)

insert-IsLinked_example :
    (c' : Blockchain) × (insert toy start child ≡ ok c')
    × IsLinked toy c'
    × (get c'.blocks (hash toy child) ≡ some (record child { length = 2 }))
unfolding hash hash_header get bytes_eq
insert-IsLinked_example =
    insert-IsLinked toy start child genesis start-IsLinked (omega arith) refl (omega arith) refl
      unnamed

-- the chain with the child
abbrev pub longer : Blockchain
longer = record start { blocks = (toy_hash 1, genesis) ∷ (toy_hash 2, toy_block 2 2 1 []) ∷ [] }

pub longer-IsLinked : IsLinked toy longer
unfolding hash hash_header get put bytes_eq
longer-IsLinked =
    extended-IsLinked toy start child genesis start-IsLinked (omega arith) refl refl unnamed

tip_longest_example :
    (h : H256) × (b : Block) × (tip toy longer ≡ ok h)
    × (get longer.blocks h ≡ some b)
    × ((h' : H256) (b' : Block) → get longer.blocks h' ≡ some b' → b'.length ≤ b.length)
unfolding get bytes_eq
tip_longest_example =
    tip_longest toy longer (toy_hash 1) genesis toy-IsDocumented longer-IsLinked refl

pub short_blocks : (h : H256) (b : Block) → get longer.blocks h ≡ some b → b.length < 3
unfolding get
short_blocks h b e = ground arith

all_blocks_in_longest_chain_example : TipDescent toy longer 3
unfolding get bytes_eq
all_blocks_in_longest_chain_example =
    all_blocks_in_longest_chain-TipDescent toy longer (toy_hash 1) genesis 3 toy-IsDocumented
      longer-IsLinked refl short_blocks
