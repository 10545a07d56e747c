-- ===== src/Miner/Forwarded.antt =====
-- From the miner to the chain: what miner/worker.rs does with a block that miner/mod.rs found.
use native.Mathlib.Omega.{arith}
use final.Base.{◌+◌, ◌^◌, ◌<◌, ◌≡◌, ◌≢◌, refl, ap, sym, ◌∙◌, List, [], ◌∷◌, some, none, ok}
use final.Base.HashMap.{get}
use final.Data.{H256, h256_key, Block, Message}
use final.External.{External}
use final.Block.{hash, get_parent}
use final.Blockchain.{Blockchain}
use final.Blockchain.Invariant.{IsLinked, insert-IsLinked}
use final.Miner.{Miner}
use final.Miner.Worker.{forward_block}
use final.Miner.Mined.{Mined}

-- A block that the miner found on a stored block, with a hash that is new and that no root names as
-- its parent, and with a length that fits in 32 bits: the miner's worker stores it as it was found,
-- sends it out, and keeps the invariant of the chain.
pub forward_block-IsLinked :
    (x : External) (p b : Block) (m m' : Miner) (genesis : List Block)
    → Mined x p m m' genesis b
    → IsLinked x m'.blockchain
    → get m'.blockchain.blocks (hash x p) ≡ some p
    → p.length + 1 < 2 ^ 32
    → get m'.blockchain.blocks (hash x b) ≡ none
    → ((h : H256) (g : Block)
        → get m'.blockchain.blocks h ≡ some g
        → g.length ≡ 1
        → get_parent g ≢ hash x b)
    → (c : Blockchain) × (forward_block x b m'.blockchain ≡ ok (c, Message.blocks (b ∷ [])))
      × IsLinked x c
      × (get c.blocks (hash x b) ≡ some b)
unfolding forward_block
forward_block-IsLinked x p b m m' genesis mined inv stands small fresh unnamed =
    let positive = inv.positive (hash x p) p stands in
    let parent = ap (get m'.blockchain.blocks) mined.parent ∙ stands in
    let (c, inserted, linked, stored) =
      insert-IsLinked x m'.blockchain b p inv (omega (arith, mined.longer, positive)) parent small
        fresh unnamed in
    let as_sent : get c.blocks (hash x b) ≡ some b =
      stored ∙ (λ i. some (record b { length = sym mined.longer i })) in
    (c, rw inserted refl, linked, as_sent)
