-- ===== src/Network/Worker/Stored.antt =====
-- Blocks that are valid, each on the one before it, are stored with their states.
use final.Base.{◌≡◌, List, [], ◌∷◌, true, ok, All, unwrap, >>=-eq-ok, ok-injective}
use mathlib.Core.Path.{subst}
use final.Base.HashMap.{get-insert_self}
use final.Data.{h256_key, Block}
use final.External.{External}
use final.Block.{hash, get_parent}
use final.Blockchain
use final.Blockchain.{Blockchain, relength, get_block_state}
use final.Blockchain.Growth.{Stores, Knows, Extends, Extends-trans, Extends-eq, with_state}
use final.Transaction.{execute_tx}
use final.Network.Worker.{check_block_validity, execute_and_insert, insert_if_valid}
use final.Network.Worker.States.{execute_and_insert-Extends}
use final.Network.Worker.Backwards.{insert_in_order}

-- Each block is valid on the one before it.
abbrev pub AreValid : External → Block → List Block → Type 0
AreValid x p [] = Unit
AreValid x p (b ∷ bs) = (check_block_validity x b p ≡ true) × AreValid x b bs

-- The chain holds the block and its state.
abbrev pub Holds : External → Blockchain → Block → Type 0
Holds x c b = Stores c (hash x b) × Knows c (hash x b)

module _ (x : External) where
  execute_and_insert-Holds :
      (c c' : Blockchain) (b : Block) → execute_and_insert x c b ≡ ok c' → Holds x c' b
  unfolding execute_and_insert Blockchain.insert
  execute_and_insert-Holds c c' b e =
      let (parent_state, _, rest) = >>=-eq-ok (unwrap (get_block_state c (get_parent b))) _ e in
      let (executed, _, rest') = >>=-eq-ok (execute_tx parent_state b.txs) _ rest in
      let known = with_state c (hash x b) executed.0 in
      let (b', _, end) = >>=-eq-ok (relength known b) _ rest' in
      subst (λ (k : Blockchain). Holds x k b) (ok-injective end)
        (
          (b', get-insert_self c.blocks (hash x b) b'),
          (executed.0, get-insert_self c.block_states (hash x b) executed.0),
        )

  pub insert_in_order-Holds :
      (c c' : Blockchain) (p : Block) (bs : List Block)
      → AreValid x p bs
      → insert_in_order x c p bs ≡ ok c'
      → Extends x c c' × All (Holds x c') bs
  unfolding insert_in_order insert_if_valid
  insert_in_order-Holds c c' p [] valid e = (Extends-eq x c c' (ok-injective e), tt)
  insert_in_order-Holds c c' p (b ∷ bs) (valid, more) e =
      let (c₁, first, rest) = >>=-eq-ok (insert_if_valid x c b p) _ e in
      let ran : execute_and_insert x c b ≡ ok c₁ = rw valid at first in
      let (later, all) = insert_in_order-Holds c₁ c' b bs more rest in
      let (stored, known) = execute_and_insert-Holds c c₁ b ran in
      (
        Extends-trans x c c₁ c' (execute_and_insert-Extends x c c₁ b ran) later,
        ((later.stores (hash x b) stored, later.knows (hash x b) known), all),
      )
