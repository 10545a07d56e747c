-- ===== src/Tests/Replay.antt =====
-- Accounts that pay and are paid in one block, and a block in two orders.
use native.Mathlib.Omega.{arith}
use mathlib.Core.List.{Permᴰ}
use mathlib.Core.List.Permᴰ.{swap}
use final.Base.{◌≡◌, refl, List, [], ◌∷◌, ok, true, false, bytes_eq}
use final.Base.HashMap.{get, insert}
use final.Data.{address_key, State, SignedTransaction}
use final.Transaction.{execute_tx, execute_loop, execute_one, write_accounts}
use final.Transaction.Execution.{accepts}
use final.Transaction.Replay.{executed_once, incoming_payment_replays}
use final.Transaction.Effect.{effects, get-execute_tx}
use final.Transaction.Order.{ledger, execute_tx_perm}
use final.Tests.Toy.{toy_address, toy_tx}
use final.Tests.Ledger.{accounts, after_batch, batch, batch_runs, batch-IsDisjoint, address_ne}

executed_once_example : accepts after_batch (toy_tx 1 2 1 30) ≡ false
unfolding accepts get bytes_eq
executed_once_example =
    executed_once accounts after_batch (toy_tx 1 2 1 30 ∷ []) [] (toy_tx 3 3 4 1 ∷ [])
      (toy_tx 1 2 1 30) refl ((address_ne 3 1 (omega arith), address_ne 3 1 (omega arith)), tt)
      batch_runs

abbrev crossing : List SignedTransaction
crossing = toy_tx 1 3 1 60 ∷ toy_tx 2 1 1 20 ∷ []

abbrev after_crossing : State
after_crossing =
    (toy_address 1, (0, 120)) ∷ (toy_address 2, (1, 30)) ∷ (toy_address 3, (4, 67)) ∷ []

crossing_runs : execute_tx accounts crossing ≡ ok (after_crossing, crossing)
unfolding execute_tx execute_loop execute_one write_accounts get insert bytes_eq
crossing_runs = refl

incoming_payment_replays_example : accepts after_crossing (toy_tx 1 3 1 60) ≡ true
unfolding accepts get bytes_eq
incoming_payment_replays_example =
    incoming_payment_replays accounts after_crossing crossing (toy_tx 1 3 1 60 ∷ []) []
      (toy_tx 2 1 1 20) (toy_tx 1 3 1 60) refl (address_ne 2 1 (omega arith)) tt crossing_runs refl
      refl

get-execute_tx_example :
    get after_crossing (toy_address 1)
    ≡ effects accounts crossing (toy_address 1) (get accounts (toy_address 1))
get-execute_tx_example =
    get-execute_tx accounts after_crossing crossing crossing (toy_address 1) crossing_runs

execute_tx_perm_example :
    (s' : State) × (v' : List SignedTransaction) × (execute_tx accounts
        (toy_tx 3 3 4 1 ∷ toy_tx 1 2 1 30 ∷ [])
      ≡ ok (s', v'))
    × (ledger after_batch ≡ ledger s')
    × Permᴰ (toy_tx 1 2 1 30 ∷ []) v'
execute_tx_perm_example =
    execute_tx_perm accounts after_batch (toy_tx 1 2 1 30 ∷ []) batch
      (toy_tx 3 3 4 1 ∷ toy_tx 1 2 1 30 ∷ []) (swap refl refl) batch-IsDisjoint batch_runs
