-- ===== src/Block.antt =====
-- types/block.rs: the hash of a header, and a block that is made up.
use final.Base.{ℕ, [], ◌∷◌}
use final.Data.{H256, Header, Block, SignedTransaction}
use final.External.{External}
use final.Hash.{of_digest}

-- `Hashable for Header`, `Hashable for Block` and `Hashable for SignedTransaction`
unfoldable pub hash_header : External → Header → H256
hash_header x h = of_digest (x.sha256 (x.header_json h))

unfoldable pub hash : External → Block → H256
unfolding hash_header
hash x b = hash_header x b.header

unfoldable pub hash_signed : External → SignedTransaction → H256
hash_signed x tx = of_digest (x.sha256 (x.signed_json tx))

abbrev pub get_parent : Block → H256
get_parent b = b.header.parent

abbrev pub get_difficulty : Block → H256
get_difficulty b = b.header.difficulty

-- 0000 8000 and 28 more bytes of zero
abbrev pub default_difficulty : H256
default_difficulty = record {
  bytes =
      0 ∷ 0 ∷ 0x80 ∷ 0 ∷ 0 ∷ 0 ∷ 0 ∷ 0 ∷ 0 ∷ 0 ∷ 0 ∷ 0 ∷ 0 ∷ 0 ∷ 0 ∷ 0 ∷ 0 ∷ 0 ∷ 0 ∷ 0 ∷ 0 ∷ 0 ∷ 0
      ∷ 0 ∷ 0 ∷ 0 ∷ 0 ∷ 0 ∷ 0 ∷ 0 ∷ 0 ∷ 0 ∷ [];
}

-- `do_generate_random_block`, over the random nonce, the time and the random merkle root
unfoldable pub do_generate_random_block : ℕ → ℕ → H256 → H256 → Block
do_generate_random_block random_nonce timestamp random_merkle parent = record {
  length = 1;
  header = record {
    parent = parent;
    nonce = random_nonce;
    difficulty = default_difficulty;
    timestamp = timestamp;
    merkle_root = random_merkle;
  };
  txs = [];
}
