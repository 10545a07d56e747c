-- ===== src/Network/Worker/Pool.antt =====
-- The mempool holds only transactions whose signature verifies, each under its hash.
use mathlib.Core.Path.{subst}
use final.Base.{
  ◌≡◌, refl, ap, sym, ◌∙◌, List, [], ◌∷◌, ◌++◌, Bool-cases, Option-cases, inl, inr, some, true, not,
  ok, some_inj, ok-injective, >>=-eq-ok, map, contains, ==_eq, ◌==◌, length, suc, nat_eq,
}
use final.Base.HashMap.{HashMap, get, insert, get-insert, get-retain}
use final.Data.{H256, h256_key, SignedTransaction, Block, Message}
use final.External.{External}
use final.Block.{hash, hash_signed}
use final.Blockchain
use final.Blockchain.{get_block, get_parent_block, ico_state}
use final.Transaction.{delete_tx_from_mempool}
use final.Network.Worker.{
  Worker, check_tx_validity, receive_transactions, handle_new_block, without_parent, with_parent,
  insert_if_valid, adopt_loop, cleanup, receive_blocks, handle_message, worker_loop, send_some,
  Sent, unseen_hashes, found_values, written, broadcast,
}

-- Every entry stands under the hash of its transaction, and its signature verifies.
abbrev pub IsVerified : External → HashMap H256 SignedTransaction → Type 0
IsVerified x m =
    (h : H256) (tx : SignedTransaction)
    → get m h ≡ some tx
    → (hash_signed x tx ≡ h) × (check_tx_validity x tx ≡ true)

module _ (x : External) where
  pub delete-IsVerified :
      (m : HashMap H256 SignedTransaction) (txs : List SignedTransaction)
      → IsVerified x m
      → IsVerified x (delete_tx_from_mempool x m txs)
  unfolding delete_tx_from_mempool
  delete-IsVerified m txs v h tx e =
      let law = get-retain (λ k. not (contains (map (hash_signed x) txs) k)) m h in
      elim (Bool-cases (not (contains (map (hash_signed x) txs) h))) [
        | inl kept ↦ v h tx (sym (rw kept at law) ∙ e)
        | inr dropped ↦ cc (sym (rw dropped at law) ∙ e)
      ]

  insert-IsVerified :
      (m : HashMap H256 SignedTransaction) (tx : SignedTransaction)
      → check_tx_validity x tx ≡ true
      → IsVerified x m
      → IsVerified x (insert m (hash_signed x tx) tx)
  insert-IsVerified m tx good v h t e =
      let law = get-insert m (hash_signed x tx) h tx in
      elim (Bool-cases (hash_signed x tx == h)) [
        | inl same ↦
            let q = some_inj (sym e ∙ (rw same at law)) in
            rw q (==_eq (hash_signed x tx) h same, good)
        | inr other ↦ v h t (sym (rw other at law) ∙ e)
      ]

  receive_transactions-IsVerified :
      (txs : List SignedTransaction) (m : HashMap H256 SignedTransaction)
      → IsVerified x m
      → IsVerified x (receive_transactions x txs m).0
  unfolding receive_transactions
  receive_transactions-IsVerified [] m v = v
  receive_transactions-IsVerified (tx ∷ txs) m v = elim (Option-cases (get m (hash_signed x tx))) [
    | inr (t, known) ↦ rw (known, receive_transactions) (receive_transactions-IsVerified txs m v)
    | inl new ↦ elim (Bool-cases (check_tx_validity x tx)) [
      | inl good ↦
          rw (new, good, receive_transactions)
            (receive_transactions-IsVerified txs (insert m (hash_signed x tx) tx)
              (insert-IsVerified m tx good v))
      | inr bad ↦ rw (new, bad, receive_transactions) (receive_transactions-IsVerified txs m v)
    ]
  ]

  without_parent-mempool :
      (block : Block) (w w' : Worker) → without_parent x block w ≡ ok w' → w'.mempool ≡ w.mempool
  unfolding without_parent
  without_parent-mempool block w w' e = elim (Bool-cases (nat_eq block.length 1)) [
    | inl root ↦
        let (c, _, rest) = >>=-eq-ok (Blockchain.insert x w.blockchain block) _ (rw root at e) in
        let (state, _, end) = >>=-eq-ok (ico_state x) _ rest in
        ap (λ (v : Worker). v.mempool) (sym (ok-injective end))
    | inr other ↦ ap (λ (v : Worker). v.mempool) (sym (ok-injective (rw other at e)))
  ]

  with_parent-mempool :
      (block p : Block) (w w' : Worker) → with_parent x block p w ≡ ok w' → w'.mempool ≡ w.mempool
  unfolding with_parent
  with_parent-mempool block p w w' e =
      let (c, _, rest) = >>=-eq-ok (insert_if_valid x w.blockchain block p) _ e in
      let (adopted, _, rest') =
        >>=-eq-ok (adopt_loop x (suc (length w.orphan_buffer)) w.orphan_buffer c block []) _ rest in
      let (orphans, _, end) = >>=-eq-ok (cleanup w.orphan_buffer adopted.1) _ rest' in
      ap (λ (v : Worker). v.mempool) (sym (ok-injective end))

  -- A new block only takes its transactions from the mempool.
  pub handle_new_block-mempool :
      (block : Block) (w w' : Worker)
      → handle_new_block x block w ≡ ok w'
      → w'.mempool ≡ delete_tx_from_mempool x w.mempool block.txs
  unfolding handle_new_block
  handle_new_block-mempool block w w' e =
      let pruned = record w { mempool = delete_tx_from_mempool x w.mempool block.txs } in
      elim (Option-cases (get_parent_block w.blockchain block)) [
        | inl none_found ↦
            without_parent-mempool block pruned w' (rw (none_found, handle_new_block) at e)
        | inr (p, found) ↦ with_parent-mempool block p pruned w' (rw (found, handle_new_block) at e)
      ]

  receive_blocks-IsVerified :
      (blocks : List Block) (w : Worker) (r : Worker × List H256)
      → IsVerified x w.mempool
      → receive_blocks x blocks w ≡ ok r
      → IsVerified x (r.0).mempool
  unfolding receive_blocks
  receive_blocks-IsVerified [] w r v e =
      subst (λ (q : Worker × List H256). IsVerified x (q.0).mempool) (ok-injective e) v
  receive_blocks-IsVerified (block ∷ blocks) w r v e =
      elim (Option-cases (get_block w.blockchain (hash x block))) [
        | inr (b, known) ↦ receive_blocks-IsVerified blocks w r v (rw (known, receive_blocks) at e)
        | inl new ↦
            let (mid, handled, rest) =
              >>=-eq-ok (handle_new_block x block w) _ (rw (new, receive_blocks) at e) in
            let (last, received, end) = >>=-eq-ok (receive_blocks x blocks mid) _ rest in
            let kept = delete-IsVerified w.mempool block.txs v in
            let ih =
              receive_blocks-IsVerified blocks mid last
                (rw (handle_new_block-mempool block w mid handled) kept) received in
            subst (λ (q : Worker × List H256). IsVerified x (q.0).mempool) (ok-injective end) ih
      ]

  send_some-mempool :
      {A : Type 0} (s : List A → Sent) (xs : List A) (w : Worker)
      → (send_some s xs w).mempool ≡ w.mempool
  send_some-mempool s [] w = refl
  send_some-mempool s (a ∷ xs) w = refl

  -- The end of a handler: the worker that it returns.
  ends-IsVerified :
      (u w' : Worker) → IsVerified x u.mempool → ok u ≡ ok w' → IsVerified x w'.mempool
  ends-IsVerified u w' v e = subst (λ (t : Worker). IsVerified x t.mempool) (ok-injective e) v

  sends-IsVerified :
      {A : Type 0} (s : List A → Sent) (xs : List A) (w w' : Worker)
      → IsVerified x w.mempool
      → ok (send_some s xs w) ≡ ok w'
      → IsVerified x w'.mempool
  sends-IsVerified s xs w w' v e =
      ends-IsVerified (send_some s xs w) w' (rw (send_some-mempool s xs w) v) e

  -- Whatever message a node handles, its mempool holds only transactions with a valid signature,
  -- each under its hash, if it did so before.
  pub handle_message-IsVerified :
      (msg : Message) (w w' : Worker)
      → IsVerified x w.mempool
      → handle_message x msg w ≡ ok w'
      → IsVerified x w'.mempool
  unfolding handle_message
  handle_message-IsVerified (Message.ping nonce) w w' v e =
      ends-IsVerified (record w { sent = w.sent ++ written (Message.pong nonce) ∷ [] }) w' v e
  handle_message-IsVerified (Message.pong nonce) w w' v e = ends-IsVerified w w' v e
  handle_message-IsVerified (Message.new_block_hashes hs) w w' v e =
      sends-IsVerified (λ xs. written (Message.get_blocks xs))
        (unseen_hashes w.blockchain.blocks hs) w w' v e
  handle_message-IsVerified (Message.get_blocks hs) w w' v e =
      sends-IsVerified (λ xs. written (Message.blocks xs)) (found_values w.blockchain.blocks hs) w
        w' v e
  handle_message-IsVerified (Message.blocks bs) w w' v e =
      let (r, received, end) = >>=-eq-ok (receive_blocks x bs w) _ e in
      sends-IsVerified (λ xs. broadcast (Message.new_block_hashes xs)) r.1 r.0 w'
        (receive_blocks-IsVerified bs w r v received) end
  handle_message-IsVerified (Message.new_transaction_hashes hs) w w' v e =
      sends-IsVerified (λ xs. written (Message.get_transactions xs)) (unseen_hashes w.mempool hs) w
        w' v e
  handle_message-IsVerified (Message.get_transactions hs) w w' v e =
      sends-IsVerified (λ xs. written (Message.transactions xs)) (found_values w.mempool hs) w w' v
        e
  handle_message-IsVerified (Message.transactions ts) w w' v e =
      let r = receive_transactions x ts w.mempool in
      sends-IsVerified (λ xs. broadcast (Message.new_transaction_hashes xs)) r.1
        (record w { mempool = r.0 }) w' (receive_transactions-IsVerified ts w.mempool v) e

  -- After any sequence of messages that a node handles without a panic, its mempool holds only
  -- transactions with a valid signature, each under its hash, if it did so before.
  pub worker_loop-IsVerified :
      (msgs : List Message) (w w' : Worker)
      → IsVerified x w.mempool
      → worker_loop x msgs w ≡ ok w'
      → IsVerified x w'.mempool
  unfolding worker_loop
  worker_loop-IsVerified [] w w' v e = ends-IsVerified w w' v e
  worker_loop-IsVerified (msg ∷ msgs) w w' v e =
      let (mid, handled, rest) = >>=-eq-ok (handle_message x msg w) _ e in
      worker_loop-IsVerified msgs mid w' (handle_message-IsVerified msg w mid v handled) rest
