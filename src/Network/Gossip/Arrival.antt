-- ===== src/Network/Gossip/Arrival.antt =====
-- A node that is behind gets the blocks that it lacks, whenever the numbers leave room for them.
use final.Base.{◌+◌, ◌≡◌, refl, sym, ap, ◌∙◌, List, [], ◌∷◌, ok, All, length}
use mathlib.Core.Path.{subst}
use final.Data.{h256_key, Block}
use final.External.{External}
use final.Block.{hash, get_parent}
use final.Blockchain.{Blockchain}
use final.Transaction.Conservation.{IsDisjoint}
use final.Network.Worker.{Worker}
use final.Network.Worker.Backwards.{insert_in_order, rev_onto, length-rev_onto, AreApart, last}
use final.Network.Worker.Stored.{AreValid, Holds}
use final.Network.Worker.Room.{IsOn, Leaves, insert_in_order_returns}
use final.Network.Gossip.{silent, exchange}
use final.Network.Gossip.CatchUp.{IsDescent, Lacks, announcing, exchange_catches_up}

module _ (x : External) where
  rev_onto-IsOn :
      (ds : List Block) (b : Block) (later : List Block)
      → IsDescent x b ds
      → IsOn x (hash x b) later
      → IsOn x (get_parent (last b ds)) (rev_onto ds (b ∷ later))
  unfolding rev_onto
  rev_onto-IsOn [] b later descent on = (refl, on)
  rev_onto-IsOn (d ∷ ds) b later (up, long, descent) on =
      rev_onto-IsOn ds d (b ∷ later) descent (up, on)

  -- A node announces a block to a peer that has no orphans and nothing to send, and lacks this
  -- block and some of its ancestors `ds`, the nearest first: each is the parent of the one before
  -- it, has its own hash, and stands in the chain of the first node as it is; all but the oldest
  -- have a length above 1. The parent of the oldest of them is a block of the peer that leaves room
  -- for them; each is valid on its parent, and no two of its transactions share an account. Then
  -- the nodes, taking turns, fall silent, within as many turns as the blocks and two: the peer's
  -- chain holds each of the blocks and its state, as insertions in order leave it, and it has no
  -- orphan; the first node is as it was.
  pub announced_blocks_arrive :
      (ds : List Block) (b : Block) (a w : Worker)
      (leaves : Leaves (length ds + 1) w.blockchain (get_parent (last b ds)))
      → w.sent ≡ []
      → w.orphan_buffer ≡ []
      → IsDescent x b ds
      → All (Lacks x a w) (b ∷ ds)
      → AreApart x (rev_onto ds (b ∷ []))
      → AreValid x leaves.block (rev_onto ds (b ∷ []))
      → All (λ d. IsDisjoint d.txs) (rev_onto ds (b ∷ []))
      → (w' : Worker) × (exchange x (length ds + 3) (announcing x a b) w ≡ ok (silent a, w'))
        × (insert_in_order x w.blockchain leaves.block (rev_onto ds (b ∷ [])) ≡ ok w'.blockchain)
        × All (Holds x w'.blockchain) (rev_onto ds (b ∷ []))
        × (w'.orphan_buffer ≡ [])
        × (w'.sent ≡ [])
  announced_blocks_arrive ds b a w leaves quiet buffer descent lacks apart valid flat =
      let enough =
        subst (λ n. Leaves n w.blockchain (get_parent (last b ds)))
          (sym (length-rev_onto ds (b ∷ []))) leaves in
      let (c, inserted) =
        insert_in_order_returns x (get_parent (last b ds)) leaves.block (rev_onto ds (b ∷ []))
          w.blockchain (rev_onto-IsOn ds b [] descent tt) valid flat enough in
      let (w', ran, chains, held, buffers, hushed) =
        exchange_catches_up x ds b leaves.block a w c quiet buffer descent lacks leaves.stored apart
          valid inserted in
      (
        w',
        ran,
        inserted ∙ ap (λ k. ok k) (sym chains),
        subst (λ (k : Blockchain). All (Holds x k) (rev_onto ds (b ∷ []))) (sym chains) held,
        buffers,
        hushed,
      )
