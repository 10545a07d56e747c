-- ===== src/Network/Worker/States.antt =====
-- What a handler does to the chain only extends it, so every stored block keeps its state.
use mathlib.Core.Path.{subst}
use final.Base.{
  ℕ, zero, suc, ◌≡◌, ap, List, [], ◌∷◌, ◌++◌, Bool-cases, Option-cases, inl, inr, ok, ok-injective,
  unwrap, >>=-eq-ok, length, nat_eq,
}
use final.Data.{H256, Block, Message}
use final.External.{External}
use final.Block.{hash, get_parent}
use final.Blockchain
use final.Blockchain.{Blockchain, relength, get_block, get_block_state, get_parent_block, ico_state}
use final.Blockchain.Growth.{
  HasStates, Extends, Extends-refl, Extends-trans, Extends-eq, with_state, with_block,
  with_state-Extends, with_state-Knows_self, with_block-Extends, relength-hash, insert-Extends,
}
use final.Transaction.{delete_tx_from_mempool, execute_tx}
use final.Network.Worker.{
  Worker, check_block_validity, execute_and_insert, handle_new_block, without_parent, with_parent,
  insert_if_valid, find_child, adopt_loop, cleanup, receive_blocks, handle_message, worker_loop,
  send_some, Sent, written, broadcast, unseen_hashes, found_values, receive_transactions,
}

module _ (x : External) where
  -- A state goes in under the hash of a block, and then the block.
  pub execute_and_insert-Extends :
      (c c' : Blockchain) (b : Block) → execute_and_insert x c b ≡ ok c' → Extends x c c'
  unfolding execute_and_insert
  execute_and_insert-Extends c c' b e =
      let (parent_state, _, rest) = >>=-eq-ok (unwrap (get_block_state c (get_parent b))) _ e in
      let (executed, _, rest') = >>=-eq-ok (execute_tx parent_state b.txs) _ rest in
      let known = with_state c (hash x b) executed.0 in
      Extends-trans x c known c' (with_state-Extends x c (hash x b) executed.0)
        (insert-Extends x known c' b (with_state-Knows_self x c (hash x b) executed.0) rest')

  insert_if_valid-Extends :
      (c c' : Blockchain) (b p : Block) → insert_if_valid x c b p ≡ ok c' → Extends x c c'
  unfolding insert_if_valid
  insert_if_valid-Extends c c' b p e = elim (Bool-cases (check_block_validity x b p)) [
    | inl valid ↦ execute_and_insert-Extends c c' b (rw valid at e)
    | inr bad ↦ Extends-eq x c c' (ok-injective (rw bad at e))
  ]

  adopt_loop-Extends :
      (fuel : ℕ) (orphans : List Block) (c : Blockchain) (b : Block) (is : List ℕ)
      (r : Blockchain × List ℕ)
      → adopt_loop x fuel orphans c b is ≡ ok r
      → Extends x c r.0
  unfolding adopt_loop
  adopt_loop-Extends zero orphans c b is r e = cc
  adopt_loop-Extends (suc fuel) orphans c b is r e =
      elim (Option-cases (find_child (hash x b) 0 orphans)) [
        | inl last ↦
            Extends-eq x c r.0
              (ap (λ (q : Blockchain × List ℕ). q.0) (ok-injective (rw (last, adopt_loop) at e)))
        | inr (found, child) ↦
            let (c', adopted, rest) =
              >>=-eq-ok (insert_if_valid x c found.1 b) _ (rw (child, adopt_loop) at e) in
            Extends-trans x c c' r.0 (insert_if_valid-Extends c c' found.1 b adopted)
              (adopt_loop-Extends fuel orphans c' found.1 (is ++ found.0 ∷ []) r rest)
      ]

  -- The two kinds of handlers that end in a changed worker.
  ends-Extends :
      (c : Blockchain) (u w' : Worker)
      → Extends x c u.blockchain
      → ok u ≡ ok w'
      → Extends x c w'.blockchain
  ends-Extends c u w' grown e =
      subst (λ (t : Worker). Extends x c t.blockchain) (ok-injective e) grown

  without_parent-Extends :
      (b : Block) (w w' : Worker)
      → without_parent x b w ≡ ok w'
      → Extends x w.blockchain w'.blockchain
  unfolding without_parent Blockchain.insert
  without_parent-Extends b w w' e = elim (Bool-cases (nat_eq b.length 1)) [
    | inl root ↦
        let (c, inserted, rest) = >>=-eq-ok (Blockchain.insert x w.blockchain b) _ (rw root at e) in
        let (state, _, end) = >>=-eq-ok (ico_state x) _ rest in
        let (b', sized, stored) = >>=-eq-ok (relength w.blockchain b) _ inserted in
        let known = with_state w.blockchain (hash x b) state in
        let grown =
          Extends-trans x w.blockchain known (with_block known (hash x b) b')
            (with_state-Extends x w.blockchain (hash x b) state)
            (with_block-Extends x known (hash x b) b'
              (with_state-Knows_self x w.blockchain (hash x b) state)
              (relength-hash x w.blockchain b b' sized)) in
        subst (λ (v : Worker). Extends x w.blockchain v.blockchain) (ok-injective end)
          (subst (λ (k : Blockchain). Extends x w.blockchain (with_state k (hash x b) state))
            (ok-injective stored) grown)
    | inr other ↦
        subst (λ (v : Worker). Extends x w.blockchain v.blockchain) (ok-injective (rw other at e))
          (Extends-refl x w.blockchain)
  ]

  with_parent-Extends :
      (b p : Block) (w w' : Worker)
      → with_parent x b p w ≡ ok w'
      → Extends x w.blockchain w'.blockchain
  unfolding with_parent
  with_parent-Extends b p w w' e =
      let (c, first, rest) = >>=-eq-ok (insert_if_valid x w.blockchain b p) _ e in
      let (adopted, loop, rest') =
        >>=-eq-ok (adopt_loop x (suc (length w.orphan_buffer)) w.orphan_buffer c b []) _ rest in
      let (orphans, _, end) = >>=-eq-ok (cleanup w.orphan_buffer adopted.1) _ rest' in
      subst (λ (v : Worker). Extends x w.blockchain v.blockchain) (ok-injective end)
        (Extends-trans x w.blockchain c adopted.0 (insert_if_valid-Extends w.blockchain c b p first)
          (adopt_loop-Extends (suc (length w.orphan_buffer)) w.orphan_buffer c b [] adopted loop))

  pub handle_new_block-Extends :
      (b : Block) (w w' : Worker)
      → handle_new_block x b w ≡ ok w'
      → Extends x w.blockchain w'.blockchain
  unfolding handle_new_block
  handle_new_block-Extends b w w' e =
      let pruned = record w { mempool = delete_tx_from_mempool x w.mempool b.txs } in
      elim (Option-cases (get_parent_block w.blockchain b)) [
        | inl none_found ↦
            without_parent-Extends b pruned w' (rw (none_found, handle_new_block) at e)
        | inr (p, found) ↦ with_parent-Extends b p pruned w' (rw (found, handle_new_block) at e)
      ]

  receive_blocks-Extends :
      (blocks : List Block) (w : Worker) (r : Worker × List H256)
      → receive_blocks x blocks w ≡ ok r
      → Extends x w.blockchain (r.0).blockchain
  unfolding receive_blocks
  receive_blocks-Extends [] w r e =
      subst (λ (q : Worker × List H256). Extends x w.blockchain (q.0).blockchain) (ok-injective e)
        (Extends-refl x w.blockchain)
  receive_blocks-Extends (b ∷ blocks) w r e =
      elim (Option-cases (get_block w.blockchain (hash x b))) [
        | inr (old, known) ↦ receive_blocks-Extends blocks w r (rw (known, receive_blocks) at e)
        | inl new ↦
            let (mid, handled, rest) =
              >>=-eq-ok (handle_new_block x b w) _ (rw (new, receive_blocks) at e) in
            let (last, received, end) = >>=-eq-ok (receive_blocks x blocks mid) _ rest in
            subst (λ (q : Worker × List H256). Extends x w.blockchain (q.0).blockchain)
              (ok-injective end)
              (Extends-trans x w.blockchain mid.blockchain (last.0).blockchain
                (handle_new_block-Extends b w mid handled)
                (receive_blocks-Extends blocks mid last received))
      ]

  send_some-Extends :
      {A : Type 0} (c : Blockchain) (s : List A → Sent) (xs : List A) (w w' : Worker)
      → Extends x c w.blockchain
      → ok (send_some s xs w) ≡ ok w'
      → Extends x c w'.blockchain
  send_some-Extends c s [] w w' grown e = ends-Extends c w w' grown e
  send_some-Extends c s (a ∷ xs) w w' grown e = ends-Extends c (send_some s (a ∷ xs) w) w' grown e

  pub handle_message-Extends :
      (msg : Message) (w w' : Worker)
      → handle_message x msg w ≡ ok w'
      → Extends x w.blockchain w'.blockchain
  unfolding handle_message
  handle_message-Extends (Message.ping nonce) w w' e =
      ends-Extends w.blockchain (record w { sent = w.sent ++ written (Message.pong nonce) ∷ [] }) w'
        (Extends-refl x w.blockchain) e
  handle_message-Extends (Message.pong nonce) w w' e =
      ends-Extends w.blockchain w w' (Extends-refl x w.blockchain) e
  handle_message-Extends (Message.new_block_hashes hs) w w' e =
      send_some-Extends w.blockchain (λ xs. written (Message.get_blocks xs))
        (unseen_hashes w.blockchain.blocks hs) w w' (Extends-refl x w.blockchain) e
  handle_message-Extends (Message.get_blocks hs) w w' e =
      send_some-Extends w.blockchain (λ xs. written (Message.blocks xs))
        (found_values w.blockchain.blocks hs) w w' (Extends-refl x w.blockchain) e
  handle_message-Extends (Message.blocks bs) w w' e =
      let (r, received, end) = >>=-eq-ok (receive_blocks x bs w) _ e in
      send_some-Extends w.blockchain (λ xs. broadcast (Message.new_block_hashes xs)) r.1 r.0 w'
        (receive_blocks-Extends bs w r received) end
  handle_message-Extends (Message.new_transaction_hashes hs) w w' e =
      send_some-Extends w.blockchain (λ xs. written (Message.get_transactions xs))
        (unseen_hashes w.mempool hs) w w' (Extends-refl x w.blockchain) e
  handle_message-Extends (Message.get_transactions hs) w w' e =
      send_some-Extends w.blockchain (λ xs. written (Message.transactions xs))
        (found_values w.mempool hs) w w' (Extends-refl x w.blockchain) e
  handle_message-Extends (Message.transactions ts) w w' e =
      let r = receive_transactions x ts w.mempool in
      send_some-Extends w.blockchain (λ xs. broadcast (Message.new_transaction_hashes xs)) r.1
        (record w { mempool = r.0 }) w' (Extends-refl x w.blockchain) e

  worker_loop-Extends :
      (msgs : List Message) (w w' : Worker)
      → worker_loop x msgs w ≡ ok w'
      → Extends x w.blockchain w'.blockchain
  unfolding worker_loop
  worker_loop-Extends [] w w' e = ends-Extends w.blockchain w w' (Extends-refl x w.blockchain) e
  worker_loop-Extends (msg ∷ msgs) w w' e =
      let (mid, handled, rest) = >>=-eq-ok (handle_message x msg w) _ e in
      Extends-trans x w.blockchain mid.blockchain w'.blockchain
        (handle_message-Extends msg w mid handled) (worker_loop-Extends msgs mid w' rest)

  -- After any sequence of messages that a node handles without a panic, each stored block has its
  -- state, if it was so before.
  pub worker_loop-HasStates :
      (msgs : List Message) (w w' : Worker)
      → HasStates w.blockchain
      → worker_loop x msgs w ≡ ok w'
      → HasStates w'.blockchain
  worker_loop-HasStates msgs w w' has e = (worker_loop-Extends msgs w w' e).states has
