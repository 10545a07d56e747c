-- ===== src/Api/Answers.antt =====
-- The answer of `/blockchain/state` is the state at a height of the longest chain.
use native.Mathlib.Omega.{arith}
use final.Base.{
  ◌>>=◌, ℕ, ◌+◌, ◌-◌, ◌<◌, ◌≤◌, ◌≡◌, ◌⊎◌, refl, List, ◌∷◌, length, get_elem?, some, ok, leb, true,
  false, Bool-cases, inl, inr,
}
use final.Base.HashMap.{get}
use final.Data.{H256, h256_key, Block, State}
use final.External.{External, IsDocumented}
use final.Blockchain.{Blockchain, tip, all_blocks_in_longest_chain, get_block_state}
use final.Blockchain.Invariant.{IsLinked}
use final.Blockchain.Chain.{all_blocks_in_longest_chain-TipDescent}
use final.Blockchain.Growth.{HasStates}
use final.Api.{state, accounts, block_count_too_large}
use final.Api.Heights.{descent-ItemAt}

-- A state that stands for a stored block of length `n`.
pub record StateAt (c : Blockchain) (n : ℕ) (s : State) : Type 0 where
  pub item : H256
  pub block : Block
  pub stands : get c.blocks item ≡ some block
  pub height : block.length ≡ n
  pub known : get c.block_states item ≡ some s

-- The two ways through the handler, for the hashes of the longest chain.
state-large :
    (x : External) (c : Blockchain) (fuel n : ℕ) (hs : List H256)
    → all_blocks_in_longest_chain x fuel c ≡ ok hs
    → leb (length hs) n ≡ true
    → state x fuel n c ≡ ok block_count_too_large
unfolding state
state-large x c fuel n hs e large = rw (e, ◌>>=◌, large) refl

state-accounts :
    (x : External) (c : Blockchain) (fuel n : ℕ) (hs : List H256) (h : H256) (s : State)
    → all_blocks_in_longest_chain x fuel c ≡ ok hs
    → leb (length hs) n ≡ false
    → get_elem? hs (length hs - n - 1) ≡ some h
    → get c.block_states h ≡ some s
    → state x fuel n c ≡ ok (accounts s)
unfolding state get_block_state
state-accounts x c fuel n hs h s e small found known = rw (e, ◌>>=◌, small, found, known) refl

-- In a linked chain with a block, where each stored block has its state, and with fuel past every
-- stored length: let the tip have length `l`. A count below `l` is answered with the state of a
-- block of length one more than the count, and any other count with the error that it is too large.
pub state-StateAt :
    (x : External) (c : Blockchain) (h₀ : H256) (b₀ : Block) (fuel n : ℕ)
    → IsDocumented x
    → IsLinked x c
    → HasStates c
    → get c.blocks h₀ ≡ some b₀
    → ((h : H256) (b : Block) → get c.blocks h ≡ some b → b.length < fuel)
    → (top : H256) × (block : Block) × (tip x c ≡ ok top)
      × (get c.blocks top ≡ some block)
      × (((n < block.length)
            × ((s : State) × (state x fuel n c ≡ ok (accounts s)) × StateAt c (n + 1) s))
          ⊎ ((block.length ≤ n) × (state x fuel n c ≡ ok block_count_too_large)))
state-StateAt x c h₀ b₀ fuel n doc inv has start enough =
    let d = all_blocks_in_longest_chain-TipDescent x c h₀ b₀ fuel doc inv start enough in
    (
      d.top,
      d.block,
      d.tip_ends,
      d.stands,
      elim (Bool-cases (leb (length (d.top ∷ d.rest)) n)) [
        | inl large ↦
            inr (ground (arith, d.size), state-large x c fuel n (d.top ∷ d.rest) d.ends large)
        | inr small ↦
            let lt : n < length (d.top ∷ d.rest) = ground arith in
            let at =
              descent-ItemAt x c inv (d.top ∷ d.rest) (length (d.top ∷ d.rest) - n - 1) d.descends
                (omega (arith, lt)) in
            let (s, known) = has at.item at.block at.stands in
            inl (
              omega (arith, lt, d.size),
              (
                s,
                state-accounts x c fuel n (d.top ∷ d.rest) at.item s d.ends small at.found known,
                record {
                  item = at.item;
                  block = at.block;
                  stands = at.stands;
                  height = omega (arith, at.height, lt);
                  known = known;
                },
              ),
            )
      ],
    )
