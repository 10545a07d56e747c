-- ===== src/Network/Worker/Theft.antt =====
-- A transfer from an account that is signed with a key that has nothing to do with it.
use final.Base.{
  ℕ, ◌+◌, ◌-◌, ◌^◌, ◌<◌, ◌≡◌, ◌≢◌, refl, ap, sym, ◌∙◌, List, [], ◌∷◌, ◌++◌, Option, some, none,
  true, ok, ==_refl, ==_ne,
}
use final.Base.HashMap.{get, get-insert_self, insert}
use final.Data.{Address, address_key, h256_key, State, SignedTransaction, Transaction, Message}
use final.External.{External, IsDocumented}
use final.Block.{hash_signed}
use final.Transaction.{nonce_or_zero, balance_or_zero, generate_signed, sign, execute_tx}
use final.Transaction.Ledger.{total}
use final.Transaction.Execution.{
  NoncesFit, accepts, accepted, execute_tx_returns, execute_tx-accepted,
}
use final.Transaction.Effect.{entry_after, effect, effects, get-execute_tx}
use final.Transaction.Generator.{generated-check_tx_validity, received_one}
use final.Network.Worker.{Worker, handle_message, broadcast}

module _ (x : External) (doc : IsDocumented x) (t : Transaction) (key : List ℕ) where
  -- The transfer, signed with the key.
  abbrev pub stolen : SignedTransaction
  stolen = record { transaction = t; signature = sign x t key; public_key = x.ed25519_public key }

  entry_alone :
      (s s' : State) (a : Address)
      → accepts s stolen ≡ true
      → execute_tx s (stolen ∷ []) ≡ ok (s', stolen ∷ [])
      → get s' a ≡ entry_after s t a (get s a)
  unfolding effects effect
  entry_alone s s' a ac ran = get-execute_tx s s' (stolen ∷ []) (stolen ∷ []) a ran ∙ rw ac refl

  sender_pays :
      (s : State) (entry : Option (ℕ × ℕ))
      → t.sender ≢ t.receiver
      → entry_after s t t.sender entry
        ≡ some (t.account_nonce, balance_or_zero (get s t.sender) - t.value)
  unfolding entry_after
  sender_pays s entry ne = rw (==_ne t.receiver t.sender (λ e. ne (sym e)), ==_refl t.sender) refl

  receiver_gets :
      (s : State) (entry : Option (ℕ × ℕ))
      → t.sender ≢ t.receiver
      → entry_after s t t.receiver entry
        ≡ some (nonce_or_zero (get s t.receiver), balance_or_zero (get s t.receiver) + t.value)
  unfolding entry_after
  receiver_gets s entry ne = rw (==_refl t.receiver, ==_ne t.sender t.receiver ne) refl

  -- A transfer that a state accepts, to an account that is not the sender's, signed with any key
  -- whatever: a node that does not have it takes it into its mempool, and a block of it alone, on a
  -- state whose total balance and whose nonces plus one fit in 32 bits, keeps it, debits the sender
  -- and credits the receiver.
  pub stolen_executes :
      (w : Worker) (s : State)
      → get w.mempool (hash_signed x stolen) ≡ none
      → accepts s stolen ≡ true
      → t.sender ≢ t.receiver
      → total s < 2 ^ 32
      → NoncesFit s
      → (w' : Worker) × (s' : State) × (handle_message x (Message.transactions (stolen ∷ [])) w
          ≡ ok w')
        × (get w'.mempool (hash_signed x stolen) ≡ some stolen)
        × (execute_tx s (stolen ∷ []) ≡ ok (s', stolen ∷ []))
        × (balance_or_zero (get s' t.sender) ≡ balance_or_zero (get s t.sender) - t.value)
        × (balance_or_zero (get s' t.receiver) ≡ balance_or_zero (get s t.receiver) + t.value)
  unfolding handle_message generate_signed accepted
  stolen_executes w s fresh ac ne small fit =
      let received = received_one x doc stolen w (generated-check_tx_validity x doc t key) fresh in
      let ((s', v), ran) = execute_tx_returns s (stolen ∷ []) small fit in
      let kept : v ≡ stolen ∷ [] = execute_tx-accepted s s' v (stolen ∷ []) ran ∙ rw ac refl in
      let alone : execute_tx s (stolen ∷ []) ≡ ok (s', stolen ∷ []) =
        ran ∙ ap (λ l. ok (s', l)) kept in
      (
        record w {
          mempool = insert w.mempool (hash_signed x stolen) stolen;
          sent =
              w.sent ++ broadcast (Message.new_transaction_hashes (hash_signed x stolen ∷ [])) ∷ [];
        },
        s',
        rw received refl,
        get-insert_self w.mempool (hash_signed x stolen) stolen,
        alone,
        ap balance_or_zero (entry_alone s s' t.sender ac alone ∙ sender_pays s (get s t.sender) ne),
        ap balance_or_zero
            (entry_alone s s' t.receiver ac alone ∙ receiver_gets s (get s t.receiver) ne),
      )
