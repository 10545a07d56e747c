-- ===== src/Client/Soundness.antt =====
-- What holds in every state of the client, whatever the interleaving of its threads.
use mathlib.Core.Path.{subst}
use native.Mathlib.Omega.{arith}
use final.Base.{
  ℕ, ◌≤◌, ◌≡◌, ◌⊎◌, sym, some, Bool, true, false, List, [], ◌∷◌, ◌++◌, All, ok, unwrap, >>=-eq-ok,
  unwrap-eq-ok, ok-injective, Bool-cases, inl, inr, ◌==◌, if◌then◌else◌,
}
use final.Base.Entries.{IsMap}
use final.Base.HashMap.{HashMap, get}
use final.Data.{H256, h256_key, Block, SignedTransaction}
use final.External.{External}
use final.Hash.{le}
use final.Block.{hash, get_parent, get_difficulty}
use final.Blockchain.{Blockchain, tip, get_block, get_block_state}
use final.Blockchain.Growth.{
  Stores, Knows, HasStates, IsKeyed, Extends, with_state, with_state-Extends, with_state-Knows_self,
}
use final.Transaction.{execute_tx}
use final.Network.Worker.{Sent}
use final.Network.Worker.Pool.{IsVerified, delete-IsVerified}
use final.Miner.{Miner, mine, candidate, finish_block, get_block_template, chain_parent, pick_txs}
use final.Client.{Client}

-- A finished block can be inserted: its state is known, and its parent is stored unless it is short.
abbrev pub CanInsert : External → Blockchain → Block → Type 0
CanInsert x c b = Knows c (hash x b) × ((b.length ≤ 1) ⊎ Stores c (get_parent b))

-- Blocks stand under their hashes and have their states; the miner's two blocks are known; every
-- finished block can be inserted; and the mempool holds only transactions with valid signatures.
pub record IsSound (x : External) (c : Client) : Type 0 where
  pub states : HasStates c.miner.blockchain
  pub keyed : IsKeyed x c.miner.blockchain
  pub distinct : IsMap c.miner.blockchain.blocks
  pub parent_known : Knows c.miner.blockchain (hash x c.parent_block)
  pub parent_stored : Stores c.miner.blockchain (hash x c.parent_block)
  pub genesis : CanInsert x c.miner.blockchain c.genesis_block
  pub finished : All (CanInsert x c.miner.blockchain) c.miner.finished_blocks
  pub verified : IsVerified x c.miner.mempool

pub All-map :
    {A : Type 0} (P Q : A → Type 0) (xs : List A) → ((a : A) → P a → Q a) → All P xs → All Q xs
All-map P Q [] f all = tt
All-map P Q (a ∷ xs) f all = (f a all.0, All-map P Q xs f all.1)

All-append : {A : Type 0} (P : A → Type 0) (xs ys : List A) → All P xs → All P ys → All P (xs ++ ys)
All-append P [] ys p q = q
All-append P (a ∷ xs) ys p q = (p.0, All-append P xs ys p.1 q)

module _ (x : External) where
  pub CanInsert-Extends :
      (a b : Blockchain) → Extends x a b → (k : Block) → CanInsert x a k → CanInsert x b k
  CanInsert-Extends a b grown k (known, inl short) = (grown.knows (hash x k) known, inl short)
  CanInsert-Extends a b grown k (known, inr parent) =
      (grown.knows (hash x k) known, inr (grown.stores (get_parent k) parent))

  -- What growth of the chain keeps of the facts on the miner's blocks.
  pub grown-IsSound :
      (c : Client) (chain : Blockchain) (mempool : HashMap H256 SignedTransaction)
      (orphans : List Block) (sent : List Sent)
      → Extends x c.miner.blockchain chain
      → IsVerified x mempool
      → IsSound x c
      → IsSound x (record c {
        miner = record (c.miner) { blockchain = chain; mempool = mempool };
        orphan_buffer = orphans;
        sent = sent;
      })
  grown-IsSound c chain mempool orphans sent grown verified s = record {
    states = grown.states s.states;
    keyed = grown.keyed s.keyed;
    distinct = grown.distinct s.distinct;
    parent_known = grown.knows (hash x c.parent_block) s.parent_known;
    parent_stored = grown.stores (hash x c.parent_block) s.parent_stored;
    genesis = CanInsert-Extends c.miner.blockchain chain grown c.genesis_block s.genesis;
    finished =
        All-map (CanInsert x c.miner.blockchain) (CanInsert x chain) c.miner.finished_blocks
          (CanInsert-Extends c.miner.blockchain chain grown) s.finished;
    verified = verified;
  }

  -- The tip's block is stored under its hash, so its state is known.
  pub chain_parent-Stores :
      (c : Blockchain) (p : Block)
      → IsKeyed x c
      → HasStates c
      → chain_parent x c ≡ ok p
      → (get c.blocks (hash x p) ≡ some p) × Knows c (hash x p)
  unfolding chain_parent get_block
  chain_parent-Stores c p keyed has e =
      let (h, _, rest) = >>=-eq-ok (tip x c) _ e in
      let stands = unwrap-eq-ok (get_block c h) rest in
      let at_h = sym (keyed h p stands) in
      subst (λ (k : H256). (get c.blocks k ≡ some p) × Knows c k) at_h (stands, has h p stands)

  candidate-parent :
      (nonce timestamp : ℕ) (root : H256) (p b : Block)
      → candidate x nonce timestamp root p ≡ ok b
      → get_parent b ≡ hash x p
  unfolding candidate get_block_template
  candidate-parent nonce timestamp root p b e = ground arith

  sent_blocks :
      (first : Bool) (known : Blockchain) (g b : Block)
      → CanInsert x known g
      → CanInsert x known b
      → All (CanInsert x known) ((if first then g ∷ [] else []) ++ b ∷ [])
  sent_blocks true known g b of_g of_b = (of_g, (of_b, tt))
  sent_blocks false known g b of_g of_b = (of_b, tt)

  pub look-IsSound :
      (c : Client) (p : Block)
      → chain_parent x c.miner.blockchain ≡ ok p
      → IsSound x c
      → IsSound x (record c { parent_block = p })
  look-IsSound c p read s =
      let (stored, known) = chain_parent-Stores c.miner.blockchain p s.keyed s.states read in
      record {
        states = s.states;
        keyed = s.keyed;
        distinct = s.distinct;
        parent_known = known;
        parent_stored = (p, stored);
        genesis = s.genesis;
        finished = s.finished;
        verified = s.verified;
      }

  -- The body of the round that found the nonce.
  finish_block-IsSound :
      (c : Client) (b : Block) (m : Miner)
      → get_parent b ≡ hash x c.parent_block
      → finish_block x c.genesis_block c.parent_block b c.miner ≡ ok m
      → IsSound x c
      → IsSound x (record c { miner = m })
  unfolding finish_block hash
  finish_block-IsSound c b m at_parent e s =
      let chain = c.miner.blockchain in
      let (parent_state, _, rest) =
        >>=-eq-ok (unwrap (get_block_state chain (hash x c.parent_block))) _ e in
      let (executed, _, end) =
        >>=-eq-ok (execute_tx parent_state (pick_txs x c.miner.mempool)) _ rest in
      let known = with_state chain (hash x b) executed.0 in
      let grown = with_state-Extends x chain (hash x b) executed.0 in
      let mined = record b { txs = executed.1 } in
      let ready : CanInsert x known mined = (
        with_state-Knows_self x chain (hash x b) executed.0,
        inr (subst (Stores chain) (sym at_parent) s.parent_stored),
      ) in
      let old =
        All-map (CanInsert x chain) (CanInsert x known) c.miner.finished_blocks
          (CanInsert-Extends chain known grown) s.finished in
      let genesis = CanInsert-Extends chain known grown c.genesis_block s.genesis in
      subst (λ (k : Miner). IsSound x (record c { miner = k })) (ok-injective end)
        (record {
          states = grown.states s.states;
          keyed = grown.keyed s.keyed;
          distinct = grown.distinct s.distinct;
          parent_known = grown.knows (hash x c.parent_block) s.parent_known;
          parent_stored = s.parent_stored;
          genesis = genesis;
          finished = All-append (CanInsert x known) c.miner.finished_blocks _ old (
              sent_blocks (get_parent mined == hash x c.genesis_block) known c.genesis_block mined
                genesis ready);
          verified = delete-IsVerified x c.miner.mempool (pick_txs x c.miner.mempool) s.verified;
        })

  pub mine-IsSound :
      (nonce timestamp : ℕ) (root : H256) (c : Client) (m : Miner)
      → mine x c.genesis_block nonce timestamp root c.parent_block c.miner ≡ ok m
      → IsSound x c
      → IsSound x (record c { miner = m })
  unfolding mine
  mine-IsSound nonce timestamp root c m e s =
      let (b, made, rest) = >>=-eq-ok (candidate x nonce timestamp root c.parent_block) _ e in
      elim (Bool-cases (le (hash x b) (get_difficulty b))) [
        | inl found ↦
            finish_block-IsSound c b m (candidate-parent nonce timestamp root c.parent_block b made)
              (rw found at rest) s
        | inr missed ↦
            subst (λ (k : Miner). IsSound x (record c { miner = k }))
              (ok-injective (rw missed at rest)) s
      ]
