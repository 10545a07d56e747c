-- ===== src/Network/Worker/Forged.antt =====
-- A chain of one's own for a node: roots are taken without a check, and a block needs only the
-- difficulty of its parent.
pub mod Attack
use final.Base.{
  ℕ, suc, ◌+◌, ◌^◌, ◌<◌, ◌≤◌, ◌≡◌, ◌≢◌, ◌⊎◌, refl, sym, ap, ◌∙◌, List, [], ◌∷◌, none, some, true,
  false, ok, inl, inr, ltb, nat_eq, ◌==◌, Bool-cases, Option-cases, length, All, ==_eq, ==_refl,
  some_inj, arith,
}
use Prim.Native.Nat.{Ordering}
use mathlib.Core.Path.{subst}
use final.Base.HashMap.{HashMap, get, insert as put, get-insert, get-insert_self, get-insert_ne}
use final.Base.Entries.{IsMap, insert-IsMap}
use final.Data.{H256, H256_eq_iff, h256_key, State, Block, Message}
use final.External.{External, IsDocumented}
use final.Hash.{cmp, gt}
use final.Hash.Order.{IsHash, AreBytes, compare_bytes, cmp-compare_bytes, compare-lt, compare_self}
use final.Block.{hash, hash_header, get_parent, get_difficulty}
use final.Blockchain
use final.Blockchain.{
  Blockchain, ico_state, relength, get_block, get_block_state, get_parent_block, tip,
}
use final.Blockchain.Growth.{with_block, with_state}
use final.Blockchain.Invariant.{insert_short}
use final.Blockchain.Tip.{tip_found}
use final.Transaction.{delete_tx_from_mempool, execute_tx, execute_loop}
use final.Network.Worker.{
  Worker, check_block_validity, execute_and_insert, insert_if_valid, find_child, adopt_loop,
  cleanup, without_parent, with_parent, handle_new_block, receive_blocks, handle_message, send_some,
  Sent, broadcast,
}
use final.Network.Worker.Returns.{ico_state_returns}

-- the difficulty that every hash meets
abbrev pub easiest : H256
easiest = record {
  bytes =
      255 ∷ 255 ∷ 255 ∷ 255 ∷ 255 ∷ 255 ∷ 255 ∷ 255 ∷ 255 ∷ 255 ∷ 255 ∷ 255 ∷ 255 ∷ 255 ∷ 255 ∷ 255
      ∷ 255 ∷ 255 ∷ 255 ∷ 255 ∷ 255 ∷ 255 ∷ 255 ∷ 255 ∷ 255 ∷ 255 ∷ 255 ∷ 255 ∷ 255 ∷ 255 ∷ 255
      ∷ 255 ∷ [];
}

compare_bytes-greatest :
    (xs ys : List ℕ) → AreBytes xs → All (λ y. y ≡ 255) ys → compare_bytes xs ys ≢ Ordering.gt
unfolding compare_bytes
compare_bytes-greatest [] ys w v e = cc
compare_bytes-greatest (x ∷ xs) [] w v e = cc
compare_bytes-greatest (x ∷ xs) (y ∷ ys) w v e = elim (Bool-cases (ltb x y)) [
  | inl less ↦ cc (rw (compare-lt x y (ground (arith, less))) at e)
  | inr more ↦
      let same : x ≡ y = ground (arith, more, w.0, v.0) in
      compare_bytes-greatest xs ys w.1 v.1 (rw (same, compare_self y) at e)
]

gt-easiest : (h : H256) → IsHash h → gt h easiest ≡ false
unfolding gt
gt-easiest h is =
    let bytes : IsHash easiest = (refl, ground arith) in
    let high = compare_bytes-greatest h.bytes easiest.bytes is.1 (ground arith) in
    ground (arith, cmp-compare_bytes h easiest is bytes, high)

-- A block of the chain: no transaction, on the one before it, with a length past 1.
pub record OnTop (x : External) (p b : Block) : Type 0 where
  pub parent : get_parent b ≡ hash x p
  pub easy : get_difficulty b ≡ easiest
  pub long : 1 < b.length
  pub empty : b.txs ≡ []

-- The blocks after `p`, each on the one before it.
abbrev pub IsForged : External → Block → List Block → Type 0
IsForged x p [] = Unit
IsForged x p (b ∷ bs) = OnTop x p b × IsForged x b bs

-- Blocks that a node has not seen: their hashes differ from one another and from those of the
-- chain, and no orphan names one of them as its parent.
abbrev pub AreNew : External → HashMap H256 Block → List Block → List Block → Type 0
AreNew x m orphans [] = Unit
AreNew x m orphans (b ∷ bs) =
    (get m (hash x b) ≡ none)
    × (find_child (hash x b) 0 orphans ≡ none)
    × All (λ d. hash x b ≢ hash x d) bs
    × AreNew x m orphans bs

-- The node has taken in the chain up to `p`, as the block of length `k` with the state `s`; no other
-- block is as long as the chain is going to be.
pub record Leads (x : External) (goal : ℕ) (c : Blockchain) (p : Block) (k : ℕ) (s : State)
    : Type 0 where
  pub distinct : IsMap c.blocks
  pub stored : Block
  pub stands : get c.blocks (hash x p) ≡ some stored
  pub sized : stored.length ≡ k
  pub easy : get_difficulty stored ≡ easiest
  pub known : get c.block_states (hash x p) ≡ some s
  pub others : (h : H256) (b : Block) → get c.blocks h ≡ some b → (h ≡ hash x p) ⊎ (b.length < goal)

module _ (x : External) (doc : IsDocumented x) where
  hash-IsHash : (b : Block) → IsHash (hash x b)
  unfolding hash hash_header
  hash-IsHash b = (doc.digest_length _, doc.digest_bytes _)

  -- A block of the easiest difficulty is valid on a parent with that difficulty.
  easy-valid :
      (b q : Block)
      → get_difficulty b ≡ easiest
      → get_difficulty q ≡ easiest
      → check_block_validity x b q ≡ true
  unfolding check_block_validity
  easy-valid b q eb eq =
      let low : gt (hash x b) (get_difficulty b) ≡ false =
        ap (gt (hash x b)) eb ∙ gt-easiest (hash x b) (hash-IsHash b) in
      let same : (get_difficulty b == get_difficulty q) ≡ true =
        (H256_eq_iff (get_difficulty b) (get_difficulty q)).1 (eb ∙ sym eq) in
      rw (low, same) refl

  pub AreNew-insert :
      (m : HashMap H256 Block) (orphans : List Block) (k : H256) (g : Block) (bs : List Block)
      → All (λ d. k ≢ hash x d) bs
      → AreNew x m orphans bs
      → AreNew x (put m k g) orphans bs
  AreNew-insert m orphans k g [] differ new = tt
  AreNew-insert m orphans k g (b ∷ bs) (ne, differ) (fresh, childless, apart, new) = (
    get-insert_ne m k (hash x b) g ne ∙ fresh,
    childless,
    apart,
    AreNew-insert m orphans k g bs differ new,
  )

  -- The node with the block that it takes in, one longer than a parent of length `k`.
  module _ (k : ℕ) (w : Worker) (b : Block) (s : State) where
    abbrev pub as_stored : Block
    as_stored = record b { length = k + 1 }

    abbrev pub grown : Blockchain
    grown = with_block (with_state w.blockchain (hash x b) s) (hash x b) as_stored

    abbrev pub taken : Worker
    taken = record w { blockchain = grown; mempool = delete_tx_from_mempool x w.mempool b.txs }

  -- A chain that leads to the parent, and the new block.
  module _ (goal k : ℕ) (w : Worker) (p b : Block) (s : State) (on : OnTop x p b)
      (le : k + 1 ≤ goal) (lead : Leads x goal w.blockchain p k s) where
    at_parent : get w.blockchain.blocks (get_parent b) ≡ some lead.stored
    at_parent = ap (get w.blockchain.blocks) on.parent ∙ lead.stands

    insert_forged :
        k + 1 < 2 ^ 32 → insert_if_valid x w.blockchain b lead.stored ≡ ok (grown k w b s)
    unfolding insert_if_valid execute_and_insert get_block_state execute_tx execute_loop relength
        Blockchain.insert
    insert_forged small =
        let state : get w.blockchain.block_states (get_parent b) ≡ some s =
          ap (get w.blockchain.block_states) on.parent ∙ lead.known in
        let fits : ltb (lead.stored.length + 1) (2 ^ 32) ≡ true = ground (arith, lead.sized) in
        let long : ltb 1 b.length ≡ true = ground (arith, on.long) in
        rw
          (
            easy-valid b lead.stored on.easy lead.easy,
            state,
            on.empty,
            long,
            at_parent,
            fits,
            lead.sized,
          )
          refl

    pub handle_forged :
        k + 1 < 2 ^ 32
        → find_child (hash x b) 0 w.orphan_buffer ≡ none
        → handle_new_block x b w ≡ ok (taken k w b s)
    unfolding handle_new_block get_parent_block get_block with_parent cleanup
    handle_forged small childless =
        rw (at_parent, handle_new_block)
          (rw (insert_forged small) (rw (childless, adopt_loop) refl))

    pub Leads-grown : Leads x goal (grown k w b s) b (k + 1) s
    Leads-grown = record {
      distinct = insert-IsMap w.blockchain.blocks (hash x b) (as_stored k w b s) lead.distinct;
      stored = as_stored k w b s;
      stands = get-insert_self w.blockchain.blocks (hash x b) (as_stored k w b s);
      sized = refl;
      easy = on.easy;
      known = get-insert_self w.blockchain.block_states (hash x b) s;
      others = λ h g e.
          let law = get-insert w.blockchain.blocks (hash x b) h (as_stored k w b s) in
          elim (Bool-cases (hash x b == h)) [
            | inl same ↦ inl (sym (==_eq (hash x b) h same))
            | inr other ↦
                let old : get w.blockchain.blocks h ≡ some g = sym (rw other at law) ∙ e in
                elim (lead.others h g old) [
                  | inl at_parent ↦
                      let q : lead.stored ≡ g =
                        some_inj
                          (sym lead.stands ∙ ap (get w.blockchain.blocks) (sym at_parent) ∙ old) in
                      inr (omega (arith, lead.sized, le, ap (λ (t : Block). t.length) q))
                  | inr short ↦ inr short
                ]
          ];
    }
