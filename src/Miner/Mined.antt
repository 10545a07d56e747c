-- ===== src/Miner/Mined.antt =====
-- What the miner sends: a block that every node accepts on its parent.
use native.Mathlib.Omega.{arith}
use final.Base.{
  ℕ, zero, suc, ◌+◌, ◌≤◌, ◌≡◌, ◌⊎◌, ap, sym, ◌∙◌, List, [], ◌∷◌, ◌++◌, Bool-cases, inl, inr, some,
  true, false, ok, ==_refl, ◌==◌, length, take, unwrap, unwrap-eq-ok, >>=-eq-ok, ok-injective,
  if◌then◌else◌, map, add_u32,
}
use final.Base.HashMap.{HashMap, get, get-insert_self}
use final.Data.{H256, h256_key, SignedTransaction, Block, State}
use final.External.{External}
use final.Hash.{le, gt}
use final.Block.{hash, get_parent, get_difficulty}
use final.Blockchain.{Blockchain, get_block_state}
use final.Transaction.{execute_tx}
use final.Transaction.Execution.{execute_tx-again, execute_tx-accepted, accepted}
use final.Network.Worker.{check_block_validity}
use final.Miner.{
  Miner, candidate, get_block_template, finish_block, pick_txs, mine, max_tx_per_block,
}

length-take : {A : Type 0} (n : ℕ) (xs : List A) → length (take n xs) ≤ n
length-take zero xs = omega arith
length-take (suc n) [] = omega arith
length-take (suc n) (a ∷ xs) = omega (arith, length-take n xs)

length-accepted : (s : State) (txs : List SignedTransaction) → length (accepted s txs) ≤ length txs
unfolding accepted
length-accepted s [] = omega arith
length-accepted s (tx ∷ txs) = ground (arith, length-accepted s txs)

le-not_gt : (a b : H256) → le a b ≡ true → gt a b ≡ false
unfolding le gt
le-not_gt a b h = ground arith

-- What is sent before a block on the parent `p`: the genesis block, if `p` has its hash.
abbrev pub genesis_before : External → Block → Block → List Block
genesis_before x g p = if hash x p == hash x g then g ∷ [] else []

-- A finished block, on the parent `p`, as the miner leaves it behind.
pub record Mined (x : External) (p : Block) (m m' : Miner) (genesis : List Block) (b : Block)
    : Type 0 where
  pub sent : m'.finished_blocks ≡ m.finished_blocks ++ (genesis ++ b ∷ [])
  pub parent : get_parent b ≡ hash x p
  pub longer : b.length ≡ p.length + 1
  pub valid : check_block_validity x b p ≡ true
  pub few : length b.txs ≤ max_tx_per_block
  pub before : State
  pub after : State
  pub parent_state : get m.blockchain.block_states (hash x p) ≡ some before
  pub stored_state : get m'.blockchain.block_states (hash x b) ≡ some after
  pub executes : execute_tx before b.txs ≡ ok (after, b.txs)

add_u32-eq : (a b n : ℕ) → add_u32 a b ≡ ok n → n ≡ a + b
add_u32-eq a b n e = ground arith

few_executed :
    (s s' : State) (v txs : List SignedTransaction)
    → execute_tx s txs ≡ ok (s', v)
    → length txs ≤ max_tx_per_block
    → length v ≤ max_tx_per_block
few_executed s s' v txs e few =
    omega (arith, length-accepted s txs, ap (length {0}) (execute_tx-accepted s s' v txs e))

get_block_state-some :
    (c : Blockchain) (h : H256) (s : State)
    → unwrap (get_block_state c h) ≡ ok s
    → get c.block_states h ≡ some s
unfolding get_block_state
get_block_state-some c h s e = unwrap-eq-ok (get c.block_states h) e

module _ (x : External) where
  -- The block before its transactions.
  record Candidate (p b : Block) : Type 0 where
    parent : get_parent b ≡ hash x p
    longer : b.length ≡ p.length + 1
    same_difficulty : get_difficulty b ≡ get_difficulty p

  candidate_lem :
      (nonce timestamp : ℕ) (root : H256) (p b : Block)
      → candidate x nonce timestamp root p ≡ ok b
      → Candidate p b
  unfolding candidate get_block_template
  candidate_lem nonce timestamp root p b e =
      let (template, made, end) = >>=-eq-ok (get_block_template x timestamp root p) _ e in
      let (size, sum, filled) = >>=-eq-ok (add_u32 p.length 1) _ made in
      let block = ok-injective filled in
      let same = ok-injective end in
      record {
        parent =
            ap (λ (k : Block). get_parent k) (sym same)
            ∙ ap (λ (k : Block). get_parent k) (sym block);
        longer =
            ap (λ (k : Block). k.length) (sym same)
            ∙ ap (λ (k : Block). k.length) (sym block)
            ∙ add_u32-eq p.length 1 size sum;
        same_difficulty =
            ap (λ (k : Block). get_difficulty k) (sym same)
            ∙ ap (λ (k : Block). get_difficulty k) (sym block);
      }

  -- The transactions are no part of the header, so they do not change the test.
  valid_of_le :
      (p b : Block) (txs : List SignedTransaction)
      → Candidate p b
      → le (hash x b) (get_difficulty b) ≡ true
      → check_block_validity x (record b { txs = txs }) p ≡ true
  unfolding check_block_validity hash
  valid_of_le p b txs c found =
      rw (
        le-not_gt (hash x b) (get_difficulty b) found,
        c.same_difficulty,
        ==_refl (get_difficulty p),
      )

  pick_txs-le :
      (mempool : HashMap H256 SignedTransaction) → length (pick_txs x mempool) ≤ max_tx_per_block
  unfolding pick_txs
  pick_txs-le mempool =
      length-take max_tx_per_block (map (λ entry. entry.1) (x.mempool_order mempool))

  finish_block-Mined :
      (g p b : Block) (m m' : Miner)
      → Candidate p b
      → le (hash x b) (get_difficulty b) ≡ true
      → finish_block x g p b m ≡ ok m'
      → (b' : Block) × Mined x p m m' (genesis_before x g p) b'
  unfolding finish_block hash
  finish_block-Mined g p b m m' c found e =
      let (before, known, rest) =
        >>=-eq-ok (unwrap (get_block_state m.blockchain (hash x p))) _ e in
      let (executed, ran, end) = >>=-eq-ok (execute_tx before (pick_txs x m.mempool)) _ rest in
      let done = sym (ok-injective end) in
      let b' = record b { txs = executed.1 } in
      (
        b',
        record {
          sent =
              ap (λ (k : Miner). k.finished_blocks) done
              ∙ ap (λ h. m.finished_blocks ++ ((if h == hash x g then g ∷ [] else []) ++ b' ∷ []))
                  c.parent;
          parent = c.parent;
          longer = c.longer;
          valid = valid_of_le p b executed.1 c found;
          few =
              few_executed before executed.0 executed.1 (pick_txs x m.mempool) ran
                (pick_txs-le m.mempool);
          before = before;
          after = executed.0;
          parent_state = get_block_state-some m.blockchain (hash x p) before known;
          stored_state =
              ap (λ (k : Miner). get k.blockchain.block_states (hash x b)) done
              ∙ get-insert_self m.blockchain.block_states (hash x b) executed.0;
          executes = execute_tx-again before executed.0 executed.1 (pick_txs x m.mempool) ran;
        },
      )

  -- A round that mines on the parent `p` and returns leaves the miner as it was, or it has sent
  -- exactly one more block, right after the genesis block if `p` has its hash. That block names `p` as its parent, is one longer,
  -- and passes the check of the receiving nodes. It has at most 300 transactions; executed on the
  -- state of `p` they are all accepted, and give the state that the miner stored for the block.
  pub mine-Mined :
      (g p : Block) (nonce timestamp : ℕ) (root : H256) (m m' : Miner)
      → mine x g nonce timestamp root p m ≡ ok m'
      → (m' ≡ m) ⊎ ((b : Block) × Mined x p m m' (genesis_before x g p) b)
  unfolding mine
  mine-Mined g p nonce timestamp root m m' e =
      let (b, made, rest) = >>=-eq-ok (candidate x nonce timestamp root p) _ e in
      let c = candidate_lem nonce timestamp root p b made in
      elim (Bool-cases (le (hash x b) (get_difficulty b))) [
        | inl found ↦ inr (finish_block-Mined g p b m m' c found (rw found at rest))
        | inr missed ↦ inl (sym (ok-injective (rw missed at rest)))
      ]
