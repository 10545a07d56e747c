-- ===== src/Transaction/Generated.antt =====
-- types/transaction.rs, lines 60 to 113: the transactions that the generator sends, and the pool.
use native.Mathlib.Omega.{arith}
use final.Base.{
  ℕ, ◌+◌, ◌≡◌, ◌≤◌, refl, ap, ◌∙◌, true, none, some, ok, List, map, not, contains, ok-injective,
  >>=-eq-ok, leb, nat_eq, add_u32, [], ◌∷◌, ==_refl,
}
use mathlib.Core.List.{Memᴰ}
use final.Base.HashMap.{HashMap, get, get-retain}
use final.Data.{H256, h256_key, address_key, State, Transaction, SignedTransaction}
use final.External.{External, IsDocumented}
use final.Address.{from_public_key_bytes, to_be_bytes}
use final.Block.{hash_signed}
use final.Transaction.{
  sign, verify, delete_tx_from_mempool, do_generate_random_transaction, generate_signed,
  nonce_or_zero,
}
use final.Transaction.Execution.{accepts}

-- A transaction that was generated on a state, where its sender has at least its value, and then
-- signed is accepted on that state, and its signature verifies.
pub generate_signed-accepts :
    (x : External) (p : State) (tx rx value nonce balance : ℕ) (t : Transaction) (key : List ℕ)
    → IsDocumented x
    → do_generate_random_transaction x tx rx value p ≡ ok t
    → get p t.sender ≡ some (nonce, balance)
    → value ≤ balance
    → (verify x t (generate_signed x t key).public_key (generate_signed x t key).signature ≡ true)
      × (accepts p (generate_signed x t key) ≡ true)
unfolding do_generate_random_transaction generate_signed sign verify accepts
generate_signed-accepts x p tx rx value nonce balance t key doc e known funds =
    let (sender, _, first) = >>=-eq-ok (from_public_key_bytes x (to_be_bytes tx)) _ e in
    let (receiver, _, second) = >>=-eq-ok (from_public_key_bytes x (to_be_bytes rx)) _ first in
    let (next, counted, end) = >>=-eq-ok (add_u32 (nonce_or_zero (get p sender)) 1) _ second in
    let made = ok-injective end in
    let at_sender : get p sender ≡ some (nonce, balance) =
      ap (λ (k : Transaction). get p k.sender) made ∙ known in
    let next_nonce : next ≡ nonce + 1 = ground (arith, ap nonce_or_zero at_sender) in
    let paid : leb t.value balance ≡ true =
      ground (arith, ap (λ (k : Transaction). k.value) made) in
    let counts : nat_eq t.account_nonce (nonce + 1) ≡ true =
      ground (arith, ap (λ (k : Transaction). k.account_nonce) made) in
    (doc.sign_verifies key (x.transaction_json t), rw (known, accepts) (rw (paid, counts) refl))

contains-hash_signed :
    (x : External) (tx : SignedTransaction) (txs : List SignedTransaction)
    → Memᴰ tx txs
    → contains (map (hash_signed x) txs) (hash_signed x tx) ≡ true
unfolding contains
contains-hash_signed x tx [] i = elim i [ ]
contains-hash_signed x tx (t ∷ txs) (Memᴰ.head p) = rw (← p, ==_refl (hash_signed x tx)) refl
contains-hash_signed x tx (t ∷ txs) (Memᴰ.tail i) =
    rw (contains-hash_signed x tx txs i) (ground arith)

-- A deleted transaction is not in the pool.
pub get-delete_tx_from_mempool :
    (x : External) (m : HashMap H256 SignedTransaction) (txs : List SignedTransaction)
    (tx : SignedTransaction)
    → Memᴰ tx txs
    → get (delete_tx_from_mempool x m txs) (hash_signed x tx) ≡ none
unfolding delete_tx_from_mempool
get-delete_tx_from_mempool x m txs tx i =
    get-retain (λ k. not (contains (map (hash_signed x) txs) k)) m (hash_signed x tx)
    ∙ (rw (contains-hash_signed x tx txs i) refl)
