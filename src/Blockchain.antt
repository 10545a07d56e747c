-- ===== src/Blockchain.antt =====
-- blockchain/mod.rs: the blocks and the state after each of them, by the hash of the block.
pub mod Invariant
pub mod Tip
pub mod Chain
pub mod Genesis
pub mod Growth
use final.Base.{
  ℕ, zero, suc, true, false, Option, none, some, List, [], ◌∷◌, ltb, leb, if◌then◌else◌, Run, ok,
  no_fuel, ◌>>=◌, unwrap, add_u32,
}
use final.Base.HashMap.{HashMap, get, insert as put}
use final.Data.{H256, h256_key, address_key, State, Block}
use final.External.{External}
use final.Address.{from_public_key_bytes, to_be_bytes}
use final.Block.{hash, get_parent, do_generate_random_block}

pub record Blockchain : Type 0 where
  pub blocks : HashMap H256 Block
  pub block_states : HashMap H256 State

-- the initial state: one account, with 100 coins
unfoldable pub ico_state : External → Run State
ico_state x = do ico_addr ← from_public_key_bytes x (to_be_bytes 0); ok (put [] ico_addr (0, 100))

-- `Blockchain::new`, over what `do_generate_random_block` and the genesis parent take from outside
unfoldable pub new : External → H256 → ℕ → ℕ → H256 → Run Blockchain
unfolding ico_state
new x genesis_parent random_nonce timestamp random_merkle =
    let genesis_block =
      do_generate_random_block random_nonce timestamp random_merkle genesis_parent in
    let genesis_hash = hash x genesis_block in
    ico_state x >>= λ state. ok (record {
      blocks = put [] genesis_hash (record genesis_block { length = 1 });
      block_states = put [] genesis_hash state;
    })

-- The block as `insert` stores it: past length 1 its length comes from its parent.
unfoldable pub relength : Blockchain → Block → Run Block
relength c block =
    if ltb 1 block.length
    then (unwrap (get c.blocks (get_parent block)) >>= λ parent.
        add_u32 parent.length 1 >>= λ length. ok (record block { length = length }))
    else ok block

unfoldable pub insert : External → Blockchain → Block → Run Blockchain
unfolding relength
insert x c block = relength c block >>= λ cloned_block.
    ok (record c { blocks = put c.blocks (hash x block) cloned_block })

-- The loop of `tip` over the entries that the iteration visits.
unfoldable pub tip_loop : Blockchain → ℕ → H256 → HashMap H256 Block → Run H256
tip_loop c max_length max_hash [] = ok max_hash
tip_loop c max_length max_hash (entry ∷ entries) = elim (leb max_length entry.1.length) [
  | true ↦ unwrap (get c.blocks entry.0) >>= λ block. tip_loop c block.length entry.0 entries
  | false ↦ tip_loop c max_length max_hash entries
]

abbrev pub zero_hash : H256
zero_hash = record {
  bytes =
      0 ∷ 0 ∷ 0 ∷ 0 ∷ 0 ∷ 0 ∷ 0 ∷ 0 ∷ 0 ∷ 0 ∷ 0 ∷ 0 ∷ 0 ∷ 0 ∷ 0 ∷ 0 ∷ 0 ∷ 0 ∷ 0 ∷ 0 ∷ 0 ∷ 0 ∷ 0 ∷ 0
      ∷ 0 ∷ 0 ∷ 0 ∷ 0 ∷ 0 ∷ 0 ∷ 0 ∷ 0 ∷ [];
}

unfoldable pub tip : External → Blockchain → Run H256
unfolding tip_loop
tip x c = tip_loop c 0 zero_hash (x.block_order c.blocks)

-- The `while` loop: what it pushes from `curr` on.
unfoldable pub walk : ℕ → Blockchain → H256 → Run (List H256)
walk zero c curr = no_fuel
walk (suc fuel) c curr = elim (get c.blocks curr) [
  | none ↦ ok []
  | some block ↦ walk fuel c (get_parent block) >>= λ rest. ok (curr ∷ rest)
]

unfoldable pub all_blocks_in_longest_chain : External → ℕ → Blockchain → Run (List H256)
unfolding walk tip
all_blocks_in_longest_chain x fuel c = tip x c >>= λ curr. walk fuel c curr

unfoldable pub get_block : Blockchain → H256 → Option Block
get_block c block_hash = get c.blocks block_hash

unfoldable pub get_block_state : Blockchain → H256 → Option State
get_block_state c block_hash = get c.block_states block_hash

unfoldable pub get_parent_block : Blockchain → Block → Option Block
unfolding get_block
get_parent_block c block = elim (get_block c (get_parent block)) [
  | none ↦ none
  | some parent_block ↦ some parent_block
]
