-- ===== src/Transaction/Generator.antt =====
-- types/transaction.rs: `generate_tx_loop` and its rounds, and what a peer does with their messages.
use final.Base.{
  ℕ, ◌≡◌, refl, sym, List, [], ◌∷◌, ◌++◌, some, none, true, Run, ok, ◌>>=◌, unwrap, >>=-eq-ok,
  ok-injective, panic, no_fuel, All,
}
use final.Base.HashMap.{get, get-insert_self, insert}
use final.Data.{h256_key, SignedTransaction, Transaction, Message}
use final.External.{External, IsDocumented}
use final.Block.{hash_signed}
use final.Blockchain.{Blockchain, tip, get_block_state}
use final.Transaction.{verify, sign, do_generate_random_transaction, generate_signed}
use final.Network.Worker.{
  Worker, broadcast, check_tx_validity, receive_transactions, handle_message,
}

-- What a round broadcasts, over its three random numbers and its random key pair.
unfoldable pub generate_round : External → ℕ → ℕ → ℕ → List ℕ → Blockchain → Run Message
generate_round x rand_tx rand_rx rand_value key c = do
  chain_tip ← tip x c
  parent_state ← unwrap (get_block_state c chain_tip)
  random_tx ← do_generate_random_transaction x rand_tx rand_rx rand_value parent_state
  ok (Message.transactions (generate_signed x random_tx key ∷ []))

-- What a round draws, and the chain that it finds.
pub record Draw : Type 0 where
  pub rand_tx : ℕ
  pub rand_rx : ℕ
  pub rand_value : ℕ
  pub key : List ℕ
  pub blockchain : Blockchain

-- How far a loop has got, with what it has broadcast: it has returned, a round has panicked, or it
-- goes on after the rounds that are known.
pub data Progress : Type 0 where
  returned panicked goes_on : List Message → Progress

-- What has been broadcast.
unfoldable pub broadcasts_of : Progress → List Message
broadcasts_of (returned msgs) = msgs
broadcasts_of (panicked msgs) = msgs
broadcasts_of (goes_on msgs) = msgs

abbrev after_broadcast : Message → Progress → Progress
after_broadcast msg (returned msgs) = returned (msg ∷ msgs)
after_broadcast msg (panicked msgs) = panicked (msg ∷ msgs)
after_broadcast msg (goes_on msgs) = goes_on (msg ∷ msgs)

-- The loop after a round: a round that panics, or that does not end, is the last one.
abbrev after_round : Run Message → Progress → Progress
after_round (ok msg) rest = after_broadcast msg rest
after_round panic rest = panicked []
after_round no_fuel rest = goes_on []

-- `generate_tx_loop`, over what its rounds draw
unfoldable pub generate_tx_loop : External → List Draw → Progress
unfolding generate_round
generate_tx_loop x [] = goes_on []
generate_tx_loop x (d ∷ draws) =
    after_round (generate_round x d.rand_tx d.rand_rx d.rand_value d.key d.blockchain)
      (generate_tx_loop x draws)

-- The loop has no way out: it has not returned.
abbrev pub Stays : Progress → Type 0
Stays (returned msgs) = ⊥
Stays (panicked msgs) = Unit
Stays (goes_on msgs) = Unit

after_round-Stays : (r : Run Message) (p : Progress) → Stays p → Stays (after_round r p)
after_round-Stays panic p s = tt
after_round-Stays no_fuel p s = tt
after_round-Stays (ok msg) (returned msgs) s = absurd s
after_round-Stays (ok msg) (panicked msgs) s = tt
after_round-Stays (ok msg) (goes_on msgs) s = tt

pub generate_tx_loop-Stays : (x : External) (draws : List Draw) → Stays (generate_tx_loop x draws)
unfolding generate_tx_loop
generate_tx_loop-Stays x [] = tt
generate_tx_loop-Stays x (d ∷ draws) =
    after_round-Stays (generate_round x d.rand_tx d.rand_rx d.rand_value d.key d.blockchain)
      (generate_tx_loop x draws) (generate_tx_loop-Stays x draws)

module _ (x : External) (doc : IsDocumented x) where
  pub generated-check_tx_validity :
      (t : Transaction) (key : List ℕ) → check_tx_validity x (generate_signed x t key) ≡ true
  unfolding check_tx_validity verify generate_signed sign
  generated-check_tx_validity t key = rw (doc.sign_verifies key (x.transaction_json t)) refl

  pub received_one :
      (tx : SignedTransaction) (w : Worker)
      → check_tx_validity x tx ≡ true
      → get w.mempool (hash_signed x tx) ≡ none
      → receive_transactions x (tx ∷ []) w.mempool
        ≡ (insert w.mempool (hash_signed x tx) tx, hash_signed x tx ∷ [])
  unfolding receive_transactions
  received_one tx w valid fresh = rw (fresh, receive_transactions) (rw valid refl)

-- Where a round of the generator returns, its message is one signed transaction that a peer which
-- does not have it yet takes into its mempool and announces, with its chain as it was.
generated_tx_received :
    (x : External) (rand_tx rand_rx rand_value : ℕ) (key : List ℕ) (c : Blockchain) (msg : Message)
    → IsDocumented x
    → generate_round x rand_tx rand_rx rand_value key c ≡ ok msg
    → (tx : SignedTransaction) × (msg ≡ Message.transactions (tx ∷ []))
      × ((w : Worker)
          → get w.mempool (hash_signed x tx) ≡ none
          → (w' : Worker) × (handle_message x msg w ≡ ok w')
            × (get w'.mempool (hash_signed x tx) ≡ some tx)
            × (w'.blockchain ≡ w.blockchain)
            × (w'.sent
                ≡ w.sent
                  ++ broadcast (Message.new_transaction_hashes (hash_signed x tx ∷ [])) ∷ []))
unfolding generate_round handle_message
generated_tx_received x rand_tx rand_rx rand_value key c msg doc e =
    let (h, _, e₁) = >>=-eq-ok (tip x c) _ e in
    let (s, _, e₂) = >>=-eq-ok (unwrap (get_block_state c h)) _ e₁ in
    let (t, _, end) =
      >>=-eq-ok (do_generate_random_transaction x rand_tx rand_rx rand_value s) _ e₂ in
    let tx = generate_signed x t key in
    let same = sym (ok-injective end) in
    (
      tx,
      same,
      λ w fresh.
          let received = received_one x doc tx w (generated-check_tx_validity x doc t key) fresh in
          let w' : Worker = record w {
            mempool = insert w.mempool (hash_signed x tx) tx;
            sent =
                w.sent ++ broadcast (Message.new_transaction_hashes (hash_signed x tx ∷ [])) ∷ [];
          } in
          (
            w',
            rw same (rw received refl),
            get-insert_self w.mempool (hash_signed x tx) tx,
            refl,
            refl,
          ),
    )

-- One transaction whose signature verifies.
abbrev IsSigned : External → Message → Type 0
IsSigned x msg =
    (tx : SignedTransaction) × (msg ≡ Message.transactions (tx ∷ []))
    × (check_tx_validity x tx ≡ true)

generate_round-IsSigned :
    (x : External) (rand_tx rand_rx rand_value : ℕ) (key : List ℕ) (c : Blockchain) (msg : Message)
    → IsDocumented x
    → generate_round x rand_tx rand_rx rand_value key c ≡ ok msg
    → IsSigned x msg
unfolding generate_round
generate_round-IsSigned x rand_tx rand_rx rand_value key c msg doc e =
    let (h, _, e₁) = >>=-eq-ok (tip x c) _ e in
    let (s, _, e₂) = >>=-eq-ok (unwrap (get_block_state c h)) _ e₁ in
    let (t, _, end) =
      >>=-eq-ok (do_generate_random_transaction x rand_tx rand_rx rand_value s) _ e₂ in
    (generate_signed x t key, sym (ok-injective end), generated-check_tx_validity x doc t key)

after_round-IsSigned :
    (x : External) (r : Run Message) (p : Progress)
    → ((msg : Message) → r ≡ ok msg → IsSigned x msg)
    → All (IsSigned x) (broadcasts_of p)
    → All (IsSigned x) (broadcasts_of (after_round r p))
unfolding broadcasts_of
after_round-IsSigned x panic p one all = tt
after_round-IsSigned x no_fuel p one all = tt
after_round-IsSigned x (ok msg) (returned msgs) one all = (one msg refl, all)
after_round-IsSigned x (ok msg) (panicked msgs) one all = (one msg refl, all)
after_round-IsSigned x (ok msg) (goes_on msgs) one all = (one msg refl, all)

-- However far the generator gets, each message that it has broadcast is one transaction whose
-- signature verifies.
generate_tx_loop-IsSigned :
    (x : External) (draws : List Draw)
    → IsDocumented x
    → All (IsSigned x) (broadcasts_of (generate_tx_loop x draws))
unfolding generate_tx_loop broadcasts_of
generate_tx_loop-IsSigned x [] doc = tt
generate_tx_loop-IsSigned x (d ∷ draws) doc =
    after_round-IsSigned x (generate_round x d.rand_tx d.rand_rx d.rand_value d.key d.blockchain)
      (generate_tx_loop x draws)
      (λ msg. generate_round-IsSigned x d.rand_tx d.rand_rx d.rand_value d.key d.blockchain msg doc)
      (generate_tx_loop-IsSigned x draws doc)
