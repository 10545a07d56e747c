-- ===== src/Api/Transactions.antt =====
-- The answer of `/blockchain/longest-chain-tx`: the transactions of the longest chain.
use native.Mathlib.Omega.{arith}
use mathlib.Core.List.{reverse-cons}
use final.Base.{
  ℕ, zero, suc, ◌+◌, ◌<◌, ◌≡◌, ◌⊎◌, refl, ap, ◌∙◌, List, [], ◌∷◌, ◌++◌, reverse, length,
  length-snoc, get_elem?, some, ok, unwrap, >>=-eq-ok, ok-injective, inl, inr,
}
use final.Base.HashMap.{get}
use final.Data.{H256, h256_key, Block}
use final.External.{External, IsDocumented}
use final.Blockchain.{Blockchain, tip, get_block}
use final.Blockchain.Invariant.{IsLinked}
use final.Blockchain.Chain.{IsDescent, all_blocks_in_longest_chain-TipDescent}
use final.Api.{chain_txs, longest_chain_tx, block_txs}
use final.Api.Heights.{descent-ItemAt}

-- The texts that stand at the place `n`: those of a stored block of length `n + 1`.
pub record TextsAt (x : External) (c : Blockchain) (texts : List (List (List ℕ))) (n : ℕ)
    : Type 0 where
  pub item : H256
  pub block : Block
  pub stands : get c.blocks item ≡ some block
  pub height : block.length ≡ n + 1
  pub found : get_elem? texts n ≡ some (block_txs x block)

get_elem?-snoc_old :
    {A : Type 0} (xs : List A) (a b : A) (n : ℕ)
    → get_elem? xs n ≡ some b
    → get_elem? (xs ++ a ∷ []) n ≡ some b
get_elem?-snoc_old [] a b n e = cc
get_elem?-snoc_old (y ∷ xs) a b zero e = e
get_elem?-snoc_old (y ∷ xs) a b (suc n) e = get_elem?-snoc_old xs a b n e

get_elem?-snoc_new :
    {A : Type 0} (xs : List A) (a : A) → get_elem? (xs ++ a ∷ []) (length xs) ≡ some a
get_elem?-snoc_new [] a = refl
get_elem?-snoc_new (y ∷ xs) a = get_elem?-snoc_new xs a

module _ (x : External) (c : Blockchain) where
  -- One more hash at the end of the list adds the texts of its block at the end of the answer.
  chain_txs-snoc :
      (hs : List H256) (h : H256) (b : Block) (texts : List (List (List ℕ)))
      → get c.blocks h ≡ some b
      → chain_txs x c hs ≡ ok texts
      → chain_txs x c (hs ++ h ∷ []) ≡ ok (texts ++ block_txs x b ∷ [])
  unfolding chain_txs get_block
  chain_txs-snoc [] h b texts e ran =
      rw e (ap (λ k. ok (k ++ block_txs x b ∷ [])) (ok-injective ran))
  chain_txs-snoc (k ∷ hs) h b texts e ran =
      let (g, stands, rest) = >>=-eq-ok (unwrap (get c.blocks k)) _ ran in
      let (later, ran', end) = >>=-eq-ok (chain_txs x c hs) _ rest in
      rw stands (
        rw (chain_txs-snoc hs h b later e ran')
          (ap (λ l. ok (l ++ block_txs x b ∷ [])) (ok-injective end)))

  record Listed (hs : List H256) : Type 0 where
    texts : List (List (List ℕ))
    ran : chain_txs x c (reverse hs) ≡ ok texts
    size : length texts ≡ length hs
    at : (n : ℕ) → n < length texts → TextsAt x c texts n

  Listed-cons :
      (hs : List H256) (h : H256) (b : Block)
      → get c.blocks h ≡ some b
      → b.length ≡ suc (length hs)
      → Listed hs
      → Listed (h ∷ hs)
  Listed-cons hs h b e height l = record {
    texts = l.texts ++ block_txs x b ∷ [];
    ran = ap (chain_txs x c) (reverse-cons h hs) ∙ chain_txs-snoc (reverse hs) h b l.texts e l.ran;
    size = omega (arith, length-snoc l.texts (block_txs x b), l.size);
    at = λ n lt. elim (place n lt) [
      | inl old ↦
          let was = l.at n old in
          record {
            item = was.item;
            block = was.block;
            stands = was.stands;
            height = was.height;
            found = get_elem?-snoc_old l.texts (block_txs x b) (block_txs x was.block) n was.found;
          }
      | inr new ↦ record {
        item = h;
        block = b;
        stands = e;
        height = omega (arith, new, height, l.size);
        found =
            ap (get_elem? (l.texts ++ block_txs x b ∷ [])) new
            ∙ get_elem?-snoc_new l.texts (block_txs x b);
      }
    ];
  }
    where
      place :
          (n : ℕ)
          → n < length (l.texts ++ block_txs x b ∷ [])
          → (n < length l.texts) ⊎ (n ≡ length l.texts)
      place n lt = ground (arith, length-snoc l.texts (block_txs x b))

  descent-Listed : (hs : List H256) → IsLinked x c → IsDescent c hs → Listed hs
  unfolding chain_txs
  descent-Listed [] inv d = elim d [ ]
  descent-Listed (h ∷ []) inv d =
      let at = descent-ItemAt x c inv (h ∷ []) 0 d (omega arith) in
      let same : h ≡ at.item = cc at.found in
      Listed-cons [] h at.block (ap (get c.blocks) same ∙ at.stands) (omega (arith, at.height))
        (record { texts = []; ran = refl; size = refl; at = λ n lt. absurd (omega (arith, lt)) })
  descent-Listed (h ∷ h' ∷ hs) inv d =
      let at = descent-ItemAt x c inv (h ∷ h' ∷ hs) 0 d (omega arith) in
      let same : h ≡ at.item = cc at.found in
      Listed-cons (h' ∷ hs) h at.block (ap (get c.blocks) same ∙ at.stands)
        (omega (arith, at.height)) (descent-Listed (h' ∷ hs) inv d.1)

-- In a linked chain with a block, with fuel past every stored length: the answer has one list for
-- each unit of the tip's length, from the root up; the list at the place `n` has the hashes of the
-- transactions of a stored block of length `n + 1`, in order.
pub longest_chain_tx-TextsAt :
    (x : External) (c : Blockchain) (h₀ : H256) (b₀ : Block) (fuel : ℕ)
    → IsDocumented x
    → IsLinked x c
    → get c.blocks h₀ ≡ some b₀
    → ((h : H256) (b : Block) → get c.blocks h ≡ some b → b.length < fuel)
    → (top : H256) × (block : Block) × (texts : List (List (List ℕ))) × (tip x c ≡ ok top)
      × (get c.blocks top ≡ some block)
      × (longest_chain_tx x fuel c ≡ ok texts)
      × (length texts ≡ block.length)
      × ((n : ℕ) → n < length texts → TextsAt x c texts n)
unfolding longest_chain_tx
longest_chain_tx-TextsAt x c h₀ b₀ fuel doc inv start enough =
    let d = all_blocks_in_longest_chain-TipDescent x c h₀ b₀ fuel doc inv start enough in
    let l = descent-Listed x c (d.top ∷ d.rest) inv d.descends in
    (d.top, d.block, l.texts, d.tip_ends, d.stands, rw d.ends l.ran, l.size ∙ d.size, l.at)
