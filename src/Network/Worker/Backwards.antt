-- ===== src/Network/Worker/Backwards.antt =====
-- Blocks that arrive last-first: each waits in the orphan buffer, and the first one brings them all
-- into the chain, as if they had come in order.
use final.Base.{
  ℕ, zero, suc, ◌+◌, ◌<◌, ◌≡◌, ◌≢◌, refl, sym, ap, ◌∙◌, List, [], ◌∷◌, ◌++◌, none, some, true, ok,
  ltb, ◌==◌, length, length-append, remove_at, All, ==_refl, ==_ne, arith, Run, ◌>>=◌, >>=-eq-ok,
  ok-injective,
}
use mathlib.Core.List.{append_assoc, append-nil}
use final.Data.{H256, h256_key, Block}
use final.External.{External}
use final.Block.{hash, get_parent}
use final.Blockchain.{Blockchain, get_parent_block}
use final.Transaction.{delete_tx_from_mempool}
use final.Network.Worker.{
  Worker, remove, find_child, insert_if_valid, adopt_loop, cleanup, with_parent, handle_new_block,
}

-- The reference: guarded insertions of blocks that come in order, each on the one before it.
unfoldable pub insert_in_order : External → Blockchain → Block → List Block → Run Blockchain
insert_in_order x c p [] = ok c
insert_in_order x c p (b ∷ bs) = insert_if_valid x c b p >>= λ c'. insert_in_order x c' b bs

-- The blocks in the order of their arrival, and then the others.
unfoldable pub rev_onto : List Block → List Block → List Block
rev_onto [] back = back
rev_onto (b ∷ bs) back = rev_onto bs (b ∷ back)

-- Each block names the one before it as its parent, and is no root.
abbrev pub IsChain : External → Block → List Block → Type 0
IsChain x p [] = Unit
IsChain x p (b ∷ bs) = (get_parent b ≡ hash x p) × (1 < b.length) × IsChain x b bs

-- The hashes differ from one another.
abbrev pub AreApart : External → List Block → Type 0
AreApart x [] = Unit
AreApart x (b ∷ bs) = All (λ d. hash x b ≢ hash x d) bs × AreApart x bs

abbrev pub last : Block → List Block → Block
last p [] = p
last p (b ∷ bs) = last b bs

pub rev_onto-append : (bs back : List Block) → rev_onto bs back ≡ rev_onto bs [] ++ back
unfolding rev_onto
rev_onto-append [] back = refl
rev_onto-append (b ∷ bs) back =
    rev_onto-append bs (b ∷ back)
    ∙ sym (append_assoc (rev_onto bs []) (b ∷ []) back)
    ∙ ap (λ k. k ++ back) (sym (rev_onto-append bs (b ∷ [])))

pub length-rev_onto : (bs back : List Block) → length (rev_onto bs back) ≡ length bs + length back
unfolding rev_onto
length-rev_onto [] back = omega arith
length-rev_onto (b ∷ bs) back = omega (arith, length-rev_onto bs (b ∷ back))

-- The indices below `n`, the largest first.
abbrev downto : ℕ → List ℕ
downto zero = []
downto (suc n) = n ∷ downto n

remove-last : (xs : List Block) (b : Block) → remove (xs ++ b ∷ []) (length xs) ≡ ok xs
unfolding remove
remove-last xs b =
    let inside : ltb (length xs) (length (xs ++ b ∷ [])) ≡ true =
      ground (arith, length-append xs (b ∷ [])) in
    rw inside (ap (λ k. ok k) (drops xs))
  where
    drops : (ys : List Block) → remove_at (length ys) (ys ++ b ∷ []) ≡ ys
    drops [] = refl
    drops (y ∷ ys) = ap (λ k. y ∷ k) (drops ys)

-- The cleanup of a whole buffer from its end: no index is past it.
cleanup-rev_onto : (bs : List Block) → cleanup (rev_onto bs []) (downto (length bs)) ≡ ok []
unfolding cleanup rev_onto
cleanup-rev_onto [] = refl
cleanup-rev_onto (b ∷ bs) =
    let size : length (rev_onto bs []) ≡ length bs = omega (arith, length-rev_onto bs []) in
    let first : remove (rev_onto bs (b ∷ [])) (length bs) ≡ ok (rev_onto bs []) =
      ap (λ k. remove k (length bs)) (rev_onto-append bs (b ∷ []))
      ∙ ap (remove (rev_onto bs [] ++ b ∷ [])) (sym size)
      ∙ remove-last (rev_onto bs []) b in
    rw first (cleanup-rev_onto bs)

-- Blocks that are no child of `h` are passed over.
find_child-pass :
    (h : H256) (i : ℕ) (bs back : List Block)
    → All (λ d. get_parent d ≢ h) bs
    → find_child h i (rev_onto bs back) ≡ find_child h (i + length bs) back
unfolding find_child rev_onto
find_child-pass h i [] back none_is = ap (λ k. find_child h k back) (omega arith)
find_child-pass h i (b ∷ bs) back (ne, none_is) =
    find_child-pass h i bs (b ∷ back) none_is
    ∙ rw (==_ne (get_parent b) h ne) (ap (λ k. find_child h k back) (omega arith))

find_child-first :
    (h : H256) (b : Block) (back : List Block) {i j : ℕ}
    → get_parent b ≡ h
    → i ≡ j
    → find_child h i (b ∷ back) ≡ some (j, b)
unfolding find_child
find_child-first h b back parent same =
    let child : (get_parent b == h) ≡ true = ap (λ k. k == h) parent ∙ ==_refl h in
    rw child (ap (λ k. some (k, b)) same)

module _ (x : External) where
  -- A block of the chain has no second child among the later ones.
  no_child :
      (h : H256) (p : Block) (bs : List Block)
      → h ≢ hash x p
      → All (λ d. h ≢ hash x d) bs
      → IsChain x p bs
      → All (λ d. get_parent d ≢ h) bs
  no_child h p [] ne apart chain = tt
  no_child h p (b ∷ bs) ne (nb, apart) (parent, long, chain) =
      (λ e. ne (sym e ∙ parent), no_child h b bs nb apart chain)

  apart-last :
      (h : H256) (b : Block) (bs : List Block)
      → h ≢ hash x b
      → All (λ d. h ≢ hash x d) bs
      → h ≢ hash x (last b bs)
  apart-last h b [] ne apart = ne
  apart-last h b (d ∷ bs) ne (nd, apart) = apart-last h d bs nd apart

  -- The last block has no child at all.
  last-childless :
      (p : Block) (bs : List Block)
      → AreApart x (p ∷ bs)
      → IsChain x p bs
      → All (λ d. get_parent d ≢ hash x (last p bs)) bs
  last-childless p [] apart chain = tt
  last-childless p (b ∷ bs) ((nb, apart), rest) (parent, long, chain) =
      (λ e. apart-last (hash x p) b bs nb apart (sym parent ∙ e), last-childless b bs rest chain)

  -- The search for orphans adopts the chain one block after the other, from the end of the buffer.
  adopt_backwards :
      (fuel : ℕ) (p : Block) (bs back : List Block) (c c' : Blockchain) (is : List ℕ)
      → length bs < fuel
      → IsChain x p bs
      → AreApart x (p ∷ bs)
      → find_child (hash x (last p bs)) 0 (rev_onto bs back) ≡ none
      → insert_in_order x c p bs ≡ ok c'
      → adopt_loop x fuel (rev_onto bs back) c p is ≡ ok (c', is ++ downto (length bs))
  unfolding adopt_loop insert_in_order rev_onto
  adopt_backwards zero p bs back c c' is lt chain apart end e = absurd (omega (arith, lt))
  adopt_backwards (suc fuel) p [] back c c' is lt chain apart end e =
      rw (end, adopt_loop)
        (ap (λ k. ok (k, is)) (ok-injective e) ∙ ap (λ k. ok (c', k)) (sym (append-nil is)))
  adopt_backwards (suc fuel) p (b ∷ bs) back c c' is lt (parent, long, chain) ((nb, differ), apart)
        end e =
      let (c₁, first, rest) = >>=-eq-ok (insert_if_valid x c b p) _ e in
      let found : find_child (hash x p) 0 (rev_onto bs (b ∷ back)) ≡ some (length bs, b) =
        find_child-pass (hash x p) 0 bs (b ∷ back) (no_child (hash x p) b bs nb differ chain)
        ∙ find_child-first (hash x p) b back parent (omega arith) in
      rw (found, adopt_loop)
        (rw first (
          adopt_backwards fuel b bs (b ∷ back) c₁ c' (is ++ length bs ∷ []) (omega (arith, lt))
            chain apart end rest
          ∙ ap (λ k. ok (c', k)) (append_assoc is (length bs ∷ []) (downto (length bs)))))

  -- No block of the chain, the first one included, is the parent of an orphan that came before.
  find_child-none :
      (h : H256) (bs : List Block)
      → All (λ d. get_parent d ≢ h) bs
      → find_child h 0 (rev_onto bs []) ≡ none
  unfolding find_child
  find_child-none h bs none_is = find_child-pass h 0 bs [] none_is

  -- A new block with a stored parent, after its descendants: they wait in the orphan buffer, the last
  -- one first, each on the one before it, and the hashes of all of them differ. The handler returns
  -- the chain that results where they come in order, if that does not panic, and an empty buffer.
  pub handle_new_block_adopts_all :
      (b p : Block) (bs : List Block) (w : Worker) (c : Blockchain)
      → get_parent_block w.blockchain b ≡ some p
      → w.orphan_buffer ≡ rev_onto bs []
      → IsChain x b bs
      → AreApart x (b ∷ bs)
      → insert_in_order x w.blockchain p (b ∷ bs) ≡ ok c
      → handle_new_block x b w
        ≡ ok (record w {
          blockchain = c;
          orphan_buffer = [];
          mempool = delete_tx_from_mempool x w.mempool b.txs;
        })
  unfolding handle_new_block with_parent insert_in_order
  handle_new_block_adopts_all b p bs w c stands buffer chain apart e =
      let (c₁, first, rest) = >>=-eq-ok (insert_if_valid x w.blockchain b p) _ e in
      let size : length bs < suc (length (rev_onto bs [])) = omega (arith, length-rev_onto bs []) in
      let adopted =
        adopt_backwards (suc (length (rev_onto bs []))) b bs [] c₁ c [] size chain apart
          (find_child-none (hash x (last b bs)) bs (last-childless b bs apart chain)) rest in
      rw (stands, handle_new_block)
        (rw (first, buffer) (rw adopted (rw (cleanup-rev_onto bs) refl)))
