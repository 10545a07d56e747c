-- ===== src/Transaction.antt =====
-- types/transaction.rs: signatures, the mempool, and the execution of the transactions of a block.
-- `+` on a u32 panics past its range, as in the build that the documentation asks for (`cargo
-- build`, target/debug).
pub mod Ledger
pub mod Execution
pub mod Conservation
pub mod Generated
pub mod Bounds
pub mod Generator
pub mod Sequential
pub mod Replay
pub mod Effect
pub mod Order
pub mod Returning
use final.Base.{
  ℕ, ◌-◌, Bool, not, Option, none, some, List, [], ◌∷◌, ◌++◌, map, contains, ltb, nat_eq, ◌==◌,
  if◌then◌else◌, Run, ok, ◌>>=◌, add_u32,
}
use final.Base.HashMap.{HashMap, get, insert, retain}
use final.Data.{H256, h256_key, address_key, Transaction, State, SignedTransaction}
use final.External.{External}
use final.Address.{from_public_key_bytes, to_be_bytes}
use final.Block.{hash_signed}

-- `sign` and `verify`; a key pair stands for its bytes
unfoldable pub sign : External → Transaction → List ℕ → List ℕ
sign x t key = x.ed25519_sign key (x.transaction_json t)

unfoldable pub verify : External → Transaction → List ℕ → List ℕ → Bool
verify x t public_key signature = x.ed25519_verify public_key (x.transaction_json t) signature

unfoldable pub delete_tx_from_mempool :
    External
    → HashMap H256 SignedTransaction
    → List SignedTransaction
    → HashMap H256 SignedTransaction
unfolding contains
delete_tx_from_mempool x mempool to_delete =
    let to_delete_hashes = map (hash_signed x) to_delete in
    retain (λ hash. not (contains to_delete_hashes hash)) mempool

-- the two matches on a lookup, with their default of 0
abbrev pub nonce_or_zero : Option (ℕ × ℕ) → ℕ
nonce_or_zero none = 0
nonce_or_zero (some (acc_nonce, _)) = acc_nonce

abbrev pub balance_or_zero : Option (ℕ × ℕ) → ℕ
balance_or_zero none = 0
balance_or_zero (some (_, balance)) = balance

-- `do_generate_random_transaction`, over its three random numbers
unfoldable pub do_generate_random_transaction : External → ℕ → ℕ → ℕ → State → Run Transaction
do_generate_random_transaction x rand_tx rand_rx rand_value parent_state = do
  sender ← from_public_key_bytes x (to_be_bytes rand_tx)
  receiver ← from_public_key_bytes x (to_be_bytes rand_rx)
  next_nonce ← add_u32 (nonce_or_zero (get parent_state sender)) 1
  ok (record {
    sender = sender;
    receiver = receiver;
    account_nonce = next_nonce;
    value = rand_value;
  })

-- The transaction that a round of `generate_tx_loop` broadcasts, over the round's key pair.
unfoldable pub generate_signed : External → Transaction → List ℕ → SignedTransaction
unfolding sign
generate_signed x random_tx key = record {
  transaction = random_tx;
  signature = sign x random_tx key;
  public_key = x.ed25519_public key;
}

-- What an accepted transaction writes: to the sender, and then to the receiver.
unfoldable pub write_accounts : State → Transaction → ℕ → Option (ℕ × ℕ) → Run State
write_accounts new_state t sender_balance receiver_entry =
    let debited = insert new_state t.sender (t.account_nonce, sender_balance - t.value) in
    if t.sender == t.receiver
    then ok (insert debited t.sender (t.account_nonce, sender_balance))
    else add_u32 (balance_or_zero receiver_entry) t.value >>= λ credited.
        ok (insert debited t.receiver (nonce_or_zero receiver_entry, credited))

-- A round of the loop of `execute_tx`: every lookup reads the parent's state.
unfoldable pub execute_one :
    State
    → State × List SignedTransaction
    → SignedTransaction
    → Run (State × List SignedTransaction)
unfolding write_accounts
execute_one parent_state (new_state, valid_tx) tx =
    let t = tx.transaction in
    elim (get parent_state t.sender) [
      | none ↦ ok (new_state, valid_tx)
      | some (sender_acc_nonce, sender_balance) ↦
          if ltb sender_balance t.value
          then ok (new_state, valid_tx)
          else (add_u32 sender_acc_nonce 1 >>= λ next_nonce.
              if not (nat_eq t.account_nonce next_nonce)
              then ok (new_state, valid_tx)
              else (write_accounts new_state t sender_balance (get parent_state t.receiver)
                  >>= λ written. ok (written, valid_tx ++ tx ∷ [])))
    ]

unfoldable pub execute_loop :
    State
    → State × List SignedTransaction
    → List SignedTransaction
    → Run (State × List SignedTransaction)
execute_loop parent_state acc [] = ok acc
execute_loop parent_state acc (tx ∷ tx_list) = do
  next ← execute_one parent_state acc tx
  execute_loop parent_state next tx_list

unfoldable pub execute_tx : State → List SignedTransaction → Run (State × List SignedTransaction)
unfolding execute_loop execute_one
execute_tx parent_state tx_list = execute_loop parent_state (parent_state, []) tx_list
