-- ===== src/Client/Progress.antt =====
-- What cannot fail in a client whose threads have interleaved in any way.
use final.Base.{
  none, ℕ, ◌+◌, ◌^◌, ◌≤◌, ◌<◌, ◌≡◌, ◌⊎◌, refl, some, true, [], ◌∷◌, All, ok, Bool-cases, inl, inr,
  leb, ltb, arith,
}
use mathlib.Core.Path.{subst}
use mathlib.Core.List.{List, Mem, not-mem-nil}
use mathlib.Core.List.Perm
use final.Base.HashMap.{HashMap, get, get-insert_self}
use final.Base.Entries.{IsMap, mem_of_get}
use final.Data.{H256, h256_key, Block, Message}
use final.External.{External, IsDocumented}
use final.Block.{hash, get_parent}
use final.Blockchain
use final.Blockchain.{Blockchain, tip, tip_loop, zero_hash, relength, get_block, get_block_state}
use final.Blockchain.Growth.{Stores, Knows}
use final.Blockchain.Tip.{Stands, visited_Stands}
use final.Network.Worker.{Worker, find_child, handle_new_block}
use final.Network.Worker.Returns.{HasRoom, IsPlaced, handle_new_block_places}
use final.Miner.{Miner, mine, chain_parent}
use final.Miner.Returns.{mine_returns}
use final.Miner.Worker.{forward_block}
use final.Client.{Client, worker_view, Reach}
use final.Client.Soundness.{CanInsert, chain_parent-Stores}
use final.Client.Interleaving.{Reach-IsSound}

-- From a stored start the loop of `tip` ends on a stored hash.
tip_loop-Stores :
    (c : Blockchain) (low : ℕ) (start : H256) (entries : HashMap H256 Block)
    → Stores c start
    → All (Stands c) entries
    → (h : H256) × (tip_loop c low start entries ≡ ok h) × Stores c h
unfolding tip_loop
tip_loop-Stores c low start [] s all = (start, refl, s)
tip_loop-Stores c low start (e ∷ entries) s (stands, all) = elim (Bool-cases (leb low e.1.length)) [
  | inl longer ↦
      rw (longer, stands, tip_loop) (tip_loop-Stores c e.1.length e.0 entries (e.1, stands) all)
  | inr shorter ↦ rw (shorter, tip_loop) (tip_loop-Stores c low start entries s all)
]

-- The loop from the start that `tip` gives it.
visits-Stores :
    (c : Blockchain) (entries : HashMap H256 Block) (e : H256 × Block)
    → All (Stands c) entries
    → Mem e entries
    → (h : H256) × (tip_loop c 0 zero_hash entries ≡ ok h) × Stores c h
unfolding tip_loop
visits-Stores c [] e all i = absurd (not-mem-nil i)
visits-Stores c (d ∷ entries) e (stands, all) i =
    let first : leb 0 d.1.length ≡ true = ground arith in
    rw (first, stands, tip_loop) (tip_loop-Stores c d.1.length d.0 entries (d.1, stands) all)

module _ (x : External) (doc : IsDocumented x) where
  -- The insertion of a block that is short, or whose parent is stored.
  forward_returns :
      (chain : Blockchain) (b : Block)
      → ((h : H256) (g : Block) → get chain.blocks h ≡ some g → g.length + 1 < 2 ^ 32)
      → ((b.length ≤ 1) ⊎ Stores chain (get_parent b))
      → (chain' : Blockchain) × (msg : Message) × (forward_block x b chain ≡ ok (chain', msg))
        × Stores chain' (hash x b)
  unfolding forward_block Blockchain.insert relength
  forward_returns chain b short can = elim (Bool-cases (ltb 1 b.length)) [
    | inr brief ↦ rw (brief) (_, _, refl, (b, get-insert_self chain.blocks (hash x b) b))
    | inl long ↦ elim can [
      | inl brief ↦ ground (arith, brief, long)
      | inr (p, stands) ↦
          let fits : ltb (p.length + 1) (2 ^ 32) ≡ true =
            ground (arith, short (get_parent b) p stands) in
          rw (long, stands, fits) (_, _, refl, (_, get-insert_self chain.blocks (hash x b) _))
    ]
  ]

  -- A chain with a block has a tip, and the tip is stored.
  tip-Stores :
      (c : Blockchain) (h₀ : H256)
      → IsMap c.blocks
      → Stores c h₀
      → (h : H256) × (tip x c ≡ ok h) × Stores c h
  unfolding tip
  tip-Stores c h₀ distinct (b₀, stands₀) =
      let visited = visited_Stands x c doc distinct in
      let listed =
        (Perm.mem_iff (doc.block_visits c.blocks)).1 (mem_of_get c.blocks h₀ b₀ stands₀) in
      visits-Stores c (x.block_order c.blocks) (h₀, b₀) visited listed

  -- In every state that the threads can reach: the chain has a tip, whose block is stored and whose
  -- state is known; the state of the block that the miner mines on is known, however long ago it was
  -- read; and the miner's worker stores the next finished block, if one more than the length of any
  -- stored block fits in 32 bits.
  lookups_succeed :
      (c : Client)
      → Reach x c
      → ((h : H256) (b : Block) → get c.miner.blockchain.blocks h ≡ some b → b.length + 1 < 2 ^ 32)
      → ((p : Block) × (chain_parent x c.miner.blockchain ≡ ok p)
          × Knows c.miner.blockchain (hash x p))
        × Knows c.miner.blockchain (hash x c.parent_block)
        × ((b : Block) (rest : List Block)
            → c.miner.finished_blocks ≡ b ∷ rest
            → (chain : Blockchain) × (msg : Message) × (forward_block x b c.miner.blockchain
                ≡ ok (chain, msg))
              × Stores chain (hash x b))
  unfolding chain_parent get_block
  lookups_succeed c r short =
      let s = Reach-IsSound x c r in
      let chain = c.miner.blockchain in
      let (h, tipped, (p, stands)) =
        tip-Stores chain (hash x c.parent_block) s.distinct s.parent_stored in
      let read : chain_parent x chain ≡ ok p = rw (tipped, stands) refl in
      (
        (p, read, (chain_parent-Stores x chain p s.keyed s.states read).1),
        s.parent_known,
        λ b rest waiting.
            let ready = subst (All (CanInsert x chain)) waiting s.finished in
            forward_returns chain b short (ready.0).1,
      )

  -- In every state that the threads can reach, if the numbers of the chain leave room and so does the
  -- length of the block that the miner mines on, none of these steps panics: the miner looks at the
  -- tip; it mines, whatever the nonce; its worker stores the next finished block; and a network
  -- worker handles a new block with no child in the orphan buffer, which is then stored, or waits for
  -- its parent, or was refused.
  pub no_thread_panics :
      (c : Client)
      → Reach x c
      → HasRoom c.miner.blockchain
      → c.parent_block.length + 1 < 2 ^ 32
      → ((p : Block) × (chain_parent x c.miner.blockchain ≡ ok p))
        × ((nonce timestamp : ℕ) (root : H256)
            → (m : Miner) × (mine x c.genesis_block nonce timestamp root c.parent_block c.miner
                ≡ ok m))
        × ((b : Block) (rest : List Block)
            → c.miner.finished_blocks ≡ b ∷ rest
            → (chain : Blockchain) × (msg : Message) × (forward_block x b c.miner.blockchain
                ≡ ok (chain, msg))
              × Stores chain (hash x b))
        × ((b : Block)
            → find_child (hash x b) 0 c.orphan_buffer ≡ none
            → (w : Worker) × (handle_new_block x b (worker_view c) ≡ ok w)
              × IsPlaced x b (worker_view c) w)
  no_thread_panics c r room short =
      let ((p, read, _), (s, known), forwards) = lookups_succeed c r room.lengths in
      (
        (p, read),
        λ nonce timestamp root.
            mine_returns x c.genesis_block c.parent_block s nonce timestamp root c.miner short known
              (room.balances (hash x c.parent_block) s known)
              (room.nonces (hash x c.parent_block) s known),
        forwards,
        λ b childless.
            handle_new_block_places x b (worker_view c) doc (Reach-IsSound x c r).states room
              childless,
      )
