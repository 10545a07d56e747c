-- ===== src/Network/Gossip/Spread.antt =====
-- The transactions that a node announces come into the mempool of its peer.
pub mod Exchange
use final.Base.{
  ◌+◌, ◌≡◌, refl, sym, ap, ◌∙◌, List, [], ◌∷◌, ◌++◌, map, none, some, true, ok, inl, inr, ◌==◌,
  Option-cases, Bool-cases, All, Run,
}
use mathlib.Core.Path.{subst}
use final.Base.HashMap.{HashMap, get, insert, get-insert, get-insert_self}
use final.Data.{H256, h256_key, SignedTransaction, Message}
use final.External.{External}
use final.Block.{hash_signed}
use final.Network.Worker.{
  Worker, Sent, written, broadcast, check_tx_validity, receive_transactions, unseen_hashes,
  found_values, handle_message, worker_loop, send_some,
}
use final.Network.Gossip.{payload, silent, exchange}

abbrev pub Pool : Type 0
Pool = HashMap H256 SignedTransaction

module _ (x : External) where
  -- Some transaction stands under the hash of this one.
  abbrev pub IsPooled : Pool → SignedTransaction → Type 0
  IsPooled m tx = (t : SignedTransaction) × (get m (hash_signed x tx) ≡ some t)

  -- The announcement of some transactions of the mempool.
  abbrev pub announcing_txs : Worker → List SignedTransaction → Worker
  announcing_txs w txs = record w {
    sent = broadcast (Message.new_transaction_hashes (map (hash_signed x) txs)) ∷ [];
  }

  -- The transactions of a list that a mempool lacks.
  pub missing : Pool → List SignedTransaction → List SignedTransaction
  missing m [] = []
  missing m (tx ∷ txs) = elim (get m (hash_signed x tx)) [
    | none ↦ tx ∷ missing m txs
    | some _ ↦ missing m txs
  ]

  pub unseen_hashes-missing :
      (m : Pool) (txs : List SignedTransaction)
      → unseen_hashes m (map (hash_signed x) txs) ≡ map (hash_signed x) (missing m txs)
  unfolding unseen_hashes missing
  unseen_hashes-missing m [] = refl
  unseen_hashes-missing m (tx ∷ txs) = elim (Option-cases (get m (hash_signed x tx))) [
    | inl new ↦
        rw (new, unseen_hashes, missing)
          (ap (λ hs. hash_signed x tx ∷ hs) (unseen_hashes-missing m txs))
    | inr (t, known) ↦ rw (known, unseen_hashes, missing) (unseen_hashes-missing m txs)
  ]

  pub All-missing :
      (P : SignedTransaction → Type 0) (m : Pool) (txs : List SignedTransaction)
      → All P txs
      → All P (missing m txs)
  unfolding missing
  All-missing P m [] all = tt
  All-missing P m (tx ∷ txs) (first, all) = elim (Option-cases (get m (hash_signed x tx))) [
    | inl new ↦ rw (new, missing) (first, All-missing P m txs all)
    | inr (t, known) ↦ rw (known, missing) (All-missing P m txs all)
  ]

  pub found_values_known :
      (m : Pool) (txs : List SignedTransaction)
      → All (λ tx. get m (hash_signed x tx) ≡ some tx) txs
      → found_values m (map (hash_signed x) txs) ≡ txs
  unfolding found_values
  found_values_known m [] all = refl
  found_values_known m (tx ∷ txs) (first, all) =
      rw (first, found_values) (ap (λ k. tx ∷ k) (found_values_known m txs all))

  -- The mempool after a message of transactions.
  pub record Received (m : Pool) (txs : List SignedTransaction) (m' : Pool) (hs : List H256)
      : Type 1 where
    pub keeps : (tx : SignedTransaction) → IsPooled m tx → IsPooled m' tx
    pub takes : All (IsPooled m') txs
    pub names : (Q : H256 → Type 0) → All (λ tx. Q (hash_signed x tx)) txs → All Q hs

  insert-IsPooled :
      (m : Pool) (tx t : SignedTransaction)
      → IsPooled m t
      → IsPooled (insert m (hash_signed x tx) tx) t
  insert-IsPooled m tx t (old, e) =
      let law = get-insert m (hash_signed x tx) (hash_signed x t) tx in
      elim (Bool-cases (hash_signed x tx == hash_signed x t)) [
        | inl same ↦ (tx, law ∙ rw same refl)
        | inr other ↦ (old, (rw other at law) ∙ e)
      ]

  pub receive-Received :
      (txs : List SignedTransaction) (m : Pool)
      → All (λ tx. check_tx_validity x tx ≡ true) txs
      → Received m txs (receive_transactions x txs m).0 (receive_transactions x txs m).1
  unfolding receive_transactions
  receive-Received [] m valid = record { keeps = λ tx p. p; takes = tt; names = λ Q all. tt }
  receive-Received (tx ∷ txs) m (good, valid) = elim (Option-cases (get m (hash_signed x tx))) [
    | inr (t, known) ↦
        let ih = receive-Received txs m valid in
        rw (known, receive_transactions)
          (record {
            keeps = ih.keeps;
            takes = (ih.keeps tx (t, known), ih.takes);
            names = λ Q all. ih.names Q all.1;
          })
    | inl new ↦
        let grown = insert m (hash_signed x tx) tx in
        let ih = receive-Received txs grown valid in
        rw (new, good, receive_transactions)
          (record {
            keeps = λ t p. ih.keeps t (insert-IsPooled m tx t p);
            takes = (ih.keeps tx (tx, get-insert_self m (hash_signed x tx) tx), ih.takes);
            names = λ Q all. (all.0, ih.names Q all.1);
          })
  ]

  pub no_unseen :
      (m : Pool) (hs : List H256)
      → All (λ h. (t : SignedTransaction) × (get m h ≡ some t)) hs
      → unseen_hashes m hs ≡ []
  unfolding unseen_hashes
  no_unseen m [] all = refl
  no_unseen m (h ∷ hs) ((t, known), all) = rw (known, unseen_hashes) (no_unseen m hs all)

  pub All-of_missing :
      (m m' : Pool) (txs : List SignedTransaction)
      → ((tx : SignedTransaction) → IsPooled m tx → IsPooled m' tx)
      → All (IsPooled m') (missing m txs)
      → All (IsPooled m') txs
  unfolding missing
  All-of_missing m m' [] keeps all = tt
  All-of_missing m m' (tx ∷ txs) keeps all = elim (Option-cases (get m (hash_signed x tx))) [
    | inl new ↦
        let (first, rest) = rw (new, missing) at all in (first, All-of_missing m m' txs keeps rest)
    | inr (t, known) ↦
        (keeps tx (t, known), All-of_missing m m' txs keeps (rw (known, missing) at all))
  ]
