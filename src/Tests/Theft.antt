-- ===== src/Tests/Theft.antt =====
-- A node and a transfer from account 1 that is signed with the key 66.
use native.Mathlib.Omega.{arith}
use final.Base.{◌≡◌, ◌+◌, ◌-◌, refl, [], ◌∷◌, ok, some, bytes_eq}
use final.Base.HashMap.{get}
use final.Data.{h256_key, address_key, State, SignedTransaction, Transaction, Message}
use final.Block.{hash_signed}
use final.Transaction.{balance_or_zero, execute_tx}
use final.Transaction.Ledger.{total}
use final.Transaction.Execution.{accepts}
use final.Network.Worker.{Worker, handle_message}
use final.Network.Worker.Theft.{stolen, stolen_executes}
use final.Tests.Toy.{toy, toy-IsDocumented, toy_address, toy_tx}
use final.Tests.Node.{node}
use final.Tests.Ledger.{accounts, accounts-NoncesFit, address_ne}

abbrev transfer : Transaction
transfer = (toy_tx 1 2 1 30).transaction

abbrev signed : SignedTransaction
signed = stolen toy toy-IsDocumented transfer (66 ∷ [])

stolen_executes_example :
    (w' : Worker) × (s' : State) × (handle_message toy (Message.transactions (signed ∷ [])) node
      ≡ ok w')
    × (get w'.mempool (hash_signed toy signed) ≡ some signed)
    × (execute_tx accounts (signed ∷ []) ≡ ok (s', signed ∷ []))
    × (balance_or_zero (get s' (toy_address 1))
        ≡ balance_or_zero (get accounts (toy_address 1)) - 30)
    × (balance_or_zero (get s' (toy_address 2))
        ≡ balance_or_zero (get accounts (toy_address 2)) + 30)
unfolding get accepts total bytes_eq
stolen_executes_example =
    stolen_executes toy toy-IsDocumented transfer (66 ∷ []) node accounts refl refl
      (address_ne 1 2 (omega arith)) (omega arith) accounts-NoncesFit
