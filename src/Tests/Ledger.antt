-- ===== src/Tests/Ledger.antt =====
-- Blocks of two transactions on a state of three accounts.
use native.Mathlib.Omega.{arith}
use final.Base.{refl, List, [], ◌∷◌, ok, ◌≡◌, ◌≢◌, ◌+◌, ℕ, bytes_eq}
use final.Base.HashMap.{get, insert}
use final.Data.{address_key, State, SignedTransaction}
use final.Transaction.{execute_tx, execute_loop, execute_one, write_accounts}
use final.Transaction.Execution.{accepts, NoncesFit, execute_tx-again, execute_tx_returns}
use final.Transaction.Ledger.{total}
use final.Transaction.Conservation.{execute_tx_conserves, double_spend, IsDisjoint}
use final.Transaction.Sequential.{execute_in_sequence, execute_tx-sequence}
use final.Transaction.Bounds.{IsU32, IsBounded, execute_tx-IsBounded}
use final.Tests.Toy.{toy_address, toy_tx}

abbrev pub accounts : State
accounts = (toy_address 1, (0, 100)) ∷ (toy_address 2, (0, 50)) ∷ (toy_address 3, (4, 7)) ∷ []

-- an accepted transaction, and one with a stale nonce
abbrev pub batch : List SignedTransaction
batch = toy_tx 1 2 1 30 ∷ toy_tx 3 3 4 1 ∷ []

abbrev pub after_batch : State
after_batch = (toy_address 1, (1, 70)) ∷ (toy_address 2, (0, 80)) ∷ (toy_address 3, (4, 7)) ∷ []

pub batch_runs : execute_tx accounts batch ≡ ok (after_batch, toy_tx 1 2 1 30 ∷ [])
unfolding execute_tx execute_loop execute_one write_accounts get insert bytes_eq
batch_runs = refl

execute_tx-again_example :
    execute_tx accounts (toy_tx 1 2 1 30 ∷ []) ≡ ok (after_batch, toy_tx 1 2 1 30 ∷ [])
execute_tx-again_example =
    execute_tx-again accounts after_batch (toy_tx 1 2 1 30 ∷ []) batch batch_runs

pub accounts-NoncesFit : NoncesFit accounts
unfolding get
accounts-NoncesFit a = ground arith

execute_tx_returns_example :
    (r : State × List SignedTransaction) × (execute_tx accounts batch ≡ ok r)
unfolding total
execute_tx_returns_example = execute_tx_returns accounts batch (omega arith) accounts-NoncesFit

-- two addresses that differ in their first byte
pub address_ne : (m n : ℕ) → m ≢ n → toy_address m ≢ toy_address n
address_ne m n ne e = ne (cc e)

pub batch-IsDisjoint : IsDisjoint batch
batch-IsDisjoint = (
  (
    (
      (address_ne 1 3 (omega arith), address_ne 2 3 (omega arith)),
      (address_ne 1 3 (omega arith), address_ne 2 3 (omega arith)),
    ),
    tt,
  ),
  (tt, tt),
)

execute_tx_conserves_example : total after_batch ≡ total accounts
execute_tx_conserves_example =
    execute_tx_conserves accounts after_batch (toy_tx 1 2 1 30 ∷ []) batch batch-IsDisjoint
      batch_runs

execute_tx-sequence_example : execute_tx accounts batch ≡ execute_in_sequence accounts [] batch
execute_tx-sequence_example = execute_tx-sequence accounts batch batch-IsDisjoint

-- one sender pays two receivers
abbrev twice : List SignedTransaction
twice = toy_tx 1 2 1 60 ∷ toy_tx 1 3 1 70 ∷ []

abbrev after_twice : State
after_twice = (toy_address 1, (1, 30)) ∷ (toy_address 2, (0, 110)) ∷ (toy_address 3, (4, 77)) ∷ []

twice_runs : execute_tx accounts twice ≡ ok (after_twice, twice)
unfolding execute_tx execute_loop execute_one write_accounts get insert bytes_eq
twice_runs = refl

double_spend_example : total after_twice ≡ total accounts + 60
unfolding accepts get bytes_eq
double_spend_example =
    double_spend accounts after_twice twice (toy_tx 1 2 1 60) (toy_tx 1 3 1 70) refl refl refl
      (address_ne 2 1 (omega arith)) (address_ne 3 1 (omega arith)) (address_ne 2 3 (omega arith))
      twice_runs

accounts-IsU32 : IsU32 accounts
unfolding get
accounts-IsU32 a = ground arith

execute_tx-IsBounded_example : IsBounded accounts after_batch
execute_tx-IsBounded_example =
    execute_tx-IsBounded accounts after_batch (toy_tx 1 2 1 30 ∷ []) batch accounts-IsU32 batch_runs
