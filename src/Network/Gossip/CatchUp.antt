-- ===== src/Network/Gossip/CatchUp.antt =====
-- A node that is several blocks behind learns them last-first, by asking for one parent after the
-- other, and takes them all in.
use final.Base.{
  ℕ, zero, suc, ◌+◌, ◌<◌, ◌≡◌, refl, sym, ap, ◌∙◌, List, [], ◌∷◌, ◌++◌, none, some, false, ok,
  nat_eq, length, All, arith,
}
use mathlib.Core.Path.{subst}
use final.Base.HashMap.{get}
use final.Data.{h256_key, Block, Message}
use final.External.{External}
use final.Block.{hash, get_parent}
use final.Blockchain.{Blockchain, get_block, get_parent_block}
use final.Transaction.{delete_tx_from_mempool}
use final.Network.Worker.{
  Worker, written, broadcast, without_parent, handle_new_block, receive_blocks, unseen_hashes,
  found_values, handle_message, worker_loop,
}
use final.Network.Worker.Backwards.{
  insert_in_order, rev_onto, rev_onto-append, IsChain, AreApart, last, handle_new_block_adopts_all,
}
use final.Network.Worker.Stored.{AreValid, Holds, insert_in_order-Holds}
use final.Network.Gossip.{silent, exchange}

-- The ancestors of a block, the nearest first: each is the parent of the one before it, none of which
-- is a root.
abbrev pub IsDescent : External → Block → List Block → Type 0
IsDescent x b [] = Unit
IsDescent x b (d ∷ ds) = (get_parent b ≡ hash x d) × (1 < b.length) × IsDescent x d ds

-- A node that has sent one block, or the hash of one.
abbrev offering : Worker → Block → Worker
offering w b = record w { sent = written (Message.blocks (b ∷ [])) ∷ [] }

module _ (x : External) where
  abbrev pub announcing : Worker → Block → Worker
  announcing w b = record w { sent = broadcast (Message.new_block_hashes (hash x b ∷ [])) ∷ [] }

  -- What becomes of the node that is behind.
  abbrev waits : Worker → Block → Worker
  waits w b = record w {
    orphan_buffer = w.orphan_buffer ++ b ∷ [];
    mempool = delete_tx_from_mempool x w.mempool b.txs;
    sent =
        broadcast (Message.get_blocks (get_parent b ∷ []))
        ∷ broadcast (Message.new_block_hashes (hash x b ∷ []))
        ∷ [];
  }

  receive_orphan :
      (w : Worker) (b : Block)
      → w.sent ≡ []
      → get w.blockchain.blocks (hash x b) ≡ none
      → get w.blockchain.blocks (get_parent b) ≡ none
      → 1 < b.length
      → worker_loop x (Message.blocks (b ∷ []) ∷ []) w ≡ ok (waits w b)
  unfolding worker_loop handle_message receive_blocks get_block handle_new_block get_parent_block
      without_parent
  receive_orphan w b quiet fresh orphan long =
      let root : nat_eq b.length 1 ≡ false = ground (arith, long) in
      rw (fresh, receive_blocks) (rw (orphan, handle_new_block) (rw (root, quiet) refl))

  answer_parent :
      (w : Worker) (b d : Block)
      → get w.blockchain.blocks (hash x b) ≡ some b
      → get w.blockchain.blocks (get_parent b) ≡ some d
      → worker_loop x
          (Message.get_blocks (get_parent b ∷ []) ∷ Message.new_block_hashes (hash x b ∷ []) ∷ [])
          (silent w)
        ≡ ok (offering w d)
  unfolding worker_loop handle_message unseen_hashes found_values
  answer_parent w b d known parent = rw (parent, found_values) (rw (known, unseen_hashes) refl)

  abbrev joins : Worker → Block → Blockchain → Worker
  joins w b c = record w {
    blockchain = c;
    orphan_buffer = [];
    mempool = delete_tx_from_mempool x w.mempool b.txs;
    sent = broadcast (Message.new_block_hashes (hash x b ∷ [])) ∷ [];
  }

  receive_oldest :
      (w : Worker) (b p : Block) (later : List Block) (c : Blockchain)
      → w.sent ≡ []
      → get w.blockchain.blocks (hash x b) ≡ none
      → get w.blockchain.blocks (get_parent b) ≡ some p
      → w.orphan_buffer ≡ rev_onto later []
      → IsChain x b later
      → AreApart x (b ∷ later)
      → insert_in_order x w.blockchain p (b ∷ later) ≡ ok c
      → worker_loop x (Message.blocks (b ∷ []) ∷ []) w ≡ ok (joins w b c)
  unfolding worker_loop handle_message receive_blocks get_block get_parent_block
  receive_oldest w b p later c quiet fresh parent buffer chain apart inserted =
      let stands : get_parent_block w.blockchain b ≡ some p = rw (parent, get_parent_block) refl in
      rw (fresh, receive_blocks)
        (rw (handle_new_block_adopts_all x b p later w c stands buffer chain apart inserted)
          (rw quiet refl))

  -- An announcement of a block that the node has.
  hear_known :
      (w : Worker) (b : Block)
      → get w.blockchain.blocks (hash x b) ≡ some b
      → worker_loop x (Message.new_block_hashes (hash x b ∷ []) ∷ []) (silent w) ≡ ok (silent w)
  unfolding worker_loop handle_message unseen_hashes
  hear_known w b known = rw (known, unseen_hashes) refl

  -- An announcement of a block that the node lacks, and the request for one that the peer has.
  ask_unseen :
      (w : Worker) (b : Block)
      → w.sent ≡ []
      → get w.blockchain.blocks (hash x b) ≡ none
      → worker_loop x (Message.new_block_hashes (hash x b ∷ []) ∷ []) w
        ≡ ok (record w { sent = written (Message.get_blocks (hash x b ∷ [])) ∷ [] })
  unfolding worker_loop handle_message unseen_hashes
  ask_unseen w b quiet fresh = rw (fresh, unseen_hashes) (rw quiet refl)

  answer_block :
      (w : Worker) (b : Block)
      → get w.blockchain.blocks (hash x b) ≡ some b
      → worker_loop x (Message.get_blocks (hash x b ∷ []) ∷ []) (silent w) ≡ ok (offering w b)
  unfolding worker_loop handle_message found_values
  answer_block w b known = rw (known, found_values) refl

  -- What the two nodes have: of each block, the one knows it under its hash, and the other does not.
  abbrev pub Lacks : Worker → Worker → Block → Type 0
  Lacks a w b =
      (get a.blockchain.blocks (hash x b) ≡ some b) × (get w.blockchain.blocks (hash x b) ≡ none)

  fetch_ancestors :
      (fuel : ℕ) (ds : List Block) (b p : Block) (later : List Block) (a w : Worker)
      (c : Blockchain)
      → length ds + 1 < fuel
      → w.sent ≡ []
      → w.orphan_buffer ≡ rev_onto later []
      → IsDescent x b ds
      → All (Lacks a w) (b ∷ ds)
      → get w.blockchain.blocks (get_parent (last b ds)) ≡ some p
      → IsChain x b later
      → AreApart x (rev_onto ds (b ∷ later))
      → insert_in_order x w.blockchain p (rev_onto ds (b ∷ later)) ≡ ok c
      → (w' : Worker) × (exchange x fuel (offering a b) w ≡ ok (silent a, w'))
        × (w'.blockchain ≡ c)
        × (w'.orphan_buffer ≡ [])
        × (w'.sent ≡ [])
  unfolding exchange rev_onto
  fetch_ancestors zero ds b p later a w c lt quiet buffer descent lacks parent chain apart e =
      absurd (omega (arith, lt))
  fetch_ancestors (suc zero) ds b p later a w c lt quiet buffer descent lacks parent chain apart e =
      absurd (omega (arith, lt))
  fetch_ancestors (suc (suc fuel)) [] b p later a w c lt quiet buffer descent ((known, fresh), _)
        parent chain apart e =
      let step = receive_oldest w b p later c quiet fresh parent buffer chain apart e in
      (silent (joins w b c), rw step (rw (hear_known a b known) refl), refl, refl, refl)
  fetch_ancestors (suc (suc fuel)) (d ∷ ds) b p later a w c lt quiet buffer (up, long, descent)
        ((known, fresh), lacks) parent chain apart e =
      let (known_d, fresh_d) = lacks.0 in
      let orphan = ap (get w.blockchain.blocks) up ∙ fresh_d in
      let answer = answer_parent a b d known (ap (get a.blockchain.blocks) up ∙ known_d) in
      let (w', ran, chains, buffers, hushed) =
        fetch_ancestors (suc fuel) ds d p (b ∷ later) a (silent (waits w b)) c (omega (arith, lt))
          refl (ap (λ k. k ++ b ∷ []) buffer ∙ sym (rev_onto-append later (b ∷ []))) descent lacks
          parent (up, long, chain) apart e in
      (w', rw (receive_orphan w b quiet fresh orphan long) (rw answer ran), chains, buffers, hushed)

  -- A node announces a block to a peer that has no orphans and lacks this block and some of its
  -- ancestors `ds`, the nearest first: each is the parent of the one before it, has its own hash,
  -- and stands in the chain of the first node as it is; all but the oldest have a length above 1.
  -- The parent of the oldest of them is `p`, which the peer has, and each is valid on its parent.
  -- If the insertions of these blocks into the peer's chain, in order, do not panic, then the
  -- nodes, taking turns, fall silent with the resulting chain at the peer, which holds each of the
  -- blocks and its state, and has no orphan, and with the first node as it was. As many turns as
  -- the blocks and two are enough.
  pub exchange_catches_up :
      (ds : List Block) (b p : Block) (a w : Worker) (c : Blockchain)
      → w.sent ≡ []
      → w.orphan_buffer ≡ []
      → IsDescent x b ds
      → All (Lacks a w) (b ∷ ds)
      → get w.blockchain.blocks (get_parent (last b ds)) ≡ some p
      → AreApart x (rev_onto ds (b ∷ []))
      → AreValid x p (rev_onto ds (b ∷ []))
      → insert_in_order x w.blockchain p (rev_onto ds (b ∷ [])) ≡ ok c
      → (w' : Worker) × (exchange x (length ds + 3) (announcing a b) w ≡ ok (silent a, w'))
        × (w'.blockchain ≡ c)
        × All (Holds x c) (rev_onto ds (b ∷ []))
        × (w'.orphan_buffer ≡ [])
        × (w'.sent ≡ [])
  unfolding exchange rev_onto
  exchange_catches_up ds b p a w c quiet buffer descent lacks parent apart valid e =
      let asked : Worker =
        silent (record w { sent = written (Message.get_blocks (hash x b ∷ [])) ∷ [] }) in
      let (w', ran, chains, buffers, hushed) =
        fetch_ancestors (length ds + 2) ds b p [] a asked c (omega arith) refl buffer descent lacks
          parent tt apart e in
      let turns : suc (length ds + 2) ≡ length ds + 3 = omega arith in
      (
        w',
        subst (λ n. exchange x n (announcing a b) w ≡ ok (silent a, w')) turns
            (rw (ask_unseen w b quiet (lacks.0).1) (rw (answer_block a b (lacks.0).0) ran)),
        chains,
        (insert_in_order-Holds x w.blockchain c p (rev_onto ds (b ∷ [])) valid e).1,
        buffers,
        hushed,
      )
