-- ===== src/Blockchain/Chain.antt =====
-- The longest chain: the walk from the tip ends, and lists one hash for each unit of length.
use native.Mathlib.Omega.{arith}
use final.Base.{ℕ, zero, suc, ◌-◌, ◌<◌, ◌≡◌, refl, List, [], ◌∷◌, length, some, none, ok}
use final.Base.HashMap.{get}
use final.Data.{H256, h256_key, Block}
use final.External.{External, IsDocumented}
use final.Block.{get_parent}
use final.Blockchain.{Blockchain, walk, tip, all_blocks_in_longest_chain}
use final.Blockchain.Invariant.{IsLinked}
use final.Blockchain.Tip.{tip_longest}

-- Each hash is that of a stored block, whose parent is the next one; the last is a root.
abbrev pub IsDescent : Blockchain → List H256 → Type 0
IsDescent c [] = ⊥
IsDescent c (h ∷ []) =
    (b : Block) × (get c.blocks h ≡ some b) × (b.length ≡ 1) × (get c.blocks (get_parent b) ≡ none)
IsDescent c (h ∷ h' ∷ hs) =
    ((b : Block) × (get c.blocks h ≡ some b) × (get_parent b ≡ h')) × IsDescent c (h' ∷ hs)

module _ (x : External) (c : Blockchain) (inv : IsLinked x c) where
  record Walked (fuel : ℕ) (h : H256) (n : ℕ) : Type 0 where
    rest : List H256
    ends : walk fuel c h ≡ ok (h ∷ rest)
    size : suc (length rest) ≡ n
    descends : IsDescent c (h ∷ rest)

  walk-Walked :
      (n fuel : ℕ) (h : H256) (b : Block)
      → get c.blocks h ≡ some b
      → b.length ≡ suc n
      → suc n < fuel
      → Walked fuel h (suc n)
  unfolding walk
  walk-Walked n zero h b e l f = absurd (omega arith)
  walk-Walked n (suc zero) h b e l f = absurd (omega arith)
  walk-Walked zero (suc (suc fuel)) h b e l f =
      let root = inv.rooted h b e l in
      record { rest = []; ends = rw (e, root, walk); size = refl; descends = (b, e, l, root) }
  walk-Walked (suc n) (suc (suc fuel)) h b e l f =
      let (p, stands, one_more) = inv.linked h b e (omega arith) in
      let w = walk-Walked n (suc fuel) (get_parent b) p stands (omega arith) (omega arith) in
      record {
        rest = get_parent b ∷ w.rest;
        ends = rw (e, walk) (rw w.ends);
        size = omega (arith, w.size);
        descends = ((b, e, refl), w.descends);
      }

-- What `all_blocks_in_longest_chain` returns, from the tip down.
pub record TipDescent (x : External) (c : Blockchain) (fuel : ℕ) : Type 0 where
  pub top : H256
  pub block : Block
  pub rest : List H256
  pub tip_ends : tip x c ≡ ok top
  pub stands : get c.blocks top ≡ some block
  pub ends : all_blocks_in_longest_chain x fuel c ≡ ok (top ∷ rest)
  pub size : length (top ∷ rest) ≡ block.length
  pub descends : IsDescent c (top ∷ rest)

-- In a linked chain with a block, with fuel past the length of every stored block,
-- `all_blocks_in_longest_chain` ends. The list begins with the tip, goes from each block to its
-- parent, ends with a root, and has as many hashes as the tip's length.
pub all_blocks_in_longest_chain-TipDescent :
    (x : External) (c : Blockchain) (h₀ : H256) (b₀ : Block) (fuel : ℕ)
    → IsDocumented x
    → IsLinked x c
    → get c.blocks h₀ ≡ some b₀
    → ((h : H256) (b : Block) → get c.blocks h ≡ some b → b.length < fuel)
    → TipDescent x c fuel
unfolding all_blocks_in_longest_chain
all_blocks_in_longest_chain-TipDescent x c h₀ b₀ fuel doc inv start enough =
    let (top, block, found, stands, _) = tip_longest x c h₀ b₀ doc inv start in
    let one = inv.positive top block stands in
    let w =
      walk-Walked x c inv (block.length - 1) fuel top block stands (omega (arith, one))
        (omega (arith, one, enough top block stands)) in
    record {
      top = top;
      block = block;
      rest = w.rest;
      tip_ends = found;
      stands = stands;
      ends = rw found w.ends;
      size = omega (arith, w.size, one);
      descends = w.descends;
    }
