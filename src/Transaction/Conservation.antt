-- ===== src/Transaction/Conservation.antt =====
-- Whether a block keeps the sum of the balances, and which accounts it leaves alone.
use native.Mathlib.Omega.{arith}
use mathlib.Core.Path.{subst}
use final.Base.{
  ◌+◌, ◌-◌, ◌≡◌, ◌≢◌, refl, ap, sym, ◌∙◌, List, [], ◌∷◌, All, inl, inr, true, ok, ==_ne, >>=-eq-ok,
  ok-injective,
}
use final.Base.HashMap.{get}
use final.Data.{Address, address_key, State, SignedTransaction}
use final.Transaction.{balance_or_zero, execute_one, execute_loop, execute_tx}
use final.Transaction.Ledger.{
  total, total-write_accounts, get-write_accounts, get-write_accounts_sender,
}
use final.Transaction.Execution.{Takes, accepts, execute_one-cases}

-- A transaction that does not touch an account.
abbrev pub Spares : Address → SignedTransaction → Type 0
Spares a tx = (tx.transaction.sender ≢ a) × (tx.transaction.receiver ≢ a)

pub loop-Spares :
    (p s s' : State) (v v' txs : List SignedTransaction) (a : Address)
    → All (Spares a) txs
    → execute_loop p (s, v) txs ≡ ok (s', v')
    → get s' a ≡ get s a
unfolding execute_loop
loop-Spares p s s' v v' [] a spares e = ap (λ r. get (r.0) a) (sym (ok-injective e))
loop-Spares p s s' v v' (tx ∷ txs) a (spare, spares) e =
    let (mid, one, rest) = >>=-eq-ok (execute_one p (s, v) tx) _ e in
    loop-Spares p mid.0 s' mid.1 v' txs a spares rest
    ∙ elim (execute_one-cases p s v tx mid.0 mid.1 one) [
      | inl refused ↦ ap (λ m. get m a) refused.0
      | inr (takes, _) ↦
          get-write_accounts s tx.transaction takes.funds (get p tx.transaction.receiver) mid.0 a
            spare.0 spare.1 takes.written
    ]

-- An account that is neither the sender nor the receiver of any transaction keeps its entry, if
-- `execute_tx` returns.
pub execute_tx-Spares :
    (p s' : State) (v' txs : List SignedTransaction) (a : Address)
    → All (Spares a) txs
    → execute_tx p txs ≡ ok (s', v')
    → get s' a ≡ get p a
unfolding execute_tx
execute_tx-Spares p s' v' txs a spares e = loop-Spares p p s' [] v' txs a spares e

-- A state that agrees with the parent's on the two accounts of a transaction.
abbrev pub Agrees : State → State → SignedTransaction → Type 0
Agrees p s tx =
    (get s tx.transaction.sender ≡ get p tx.transaction.sender)
    × (get s tx.transaction.receiver ≡ get p tx.transaction.receiver)

-- No two transactions share an account; one may send to itself.
abbrev pub IsDisjoint : List SignedTransaction → Type 0
IsDisjoint [] = Unit
IsDisjoint (tx ∷ txs) =
    All (λ other. Spares other.transaction.sender tx × Spares other.transaction.receiver tx) txs
    × IsDisjoint txs

total-Takes :
    (p s s' : State) (tx : SignedTransaction) → Takes p s tx s' → Agrees p s tx → total s' ≡ total s
total-Takes p s s' tx takes (sender, receiver) = omega (
  arith,
  total-write_accounts s tx.transaction takes.funds (get p tx.transaction.receiver) s' receiver
      takes.covered takes.written,
  ap balance_or_zero (sender ∙ takes.known),
)

pub Agrees-Takes :
    (p s s' : State) (tx : SignedTransaction) (txs : List SignedTransaction)
    → Takes p s tx s'
    → All (λ other. Spares other.transaction.sender tx × Spares other.transaction.receiver tx) txs
    → All (Agrees p s) txs
    → All (Agrees p s') txs
Agrees-Takes p s s' tx [] takes spares agrees = tt
Agrees-Takes p s s' tx (other ∷ txs) takes ((fs, fr), spares) ((ag_s, ag_r), agrees) =
    let same = λ (a : Address) (f : Spares a tx).
      get-write_accounts s tx.transaction takes.funds (get p tx.transaction.receiver) s' a f.0 f.1
        takes.written in
    (
      (same other.transaction.sender fs ∙ ag_s, same other.transaction.receiver fr ∙ ag_r),
      Agrees-Takes p s s' tx txs takes spares agrees,
    )

loop_conserves :
    (p s s' : State) (v v' txs : List SignedTransaction)
    → All (Agrees p s) txs
    → IsDisjoint txs
    → execute_loop p (s, v) txs ≡ ok (s', v')
    → total s' ≡ total s
unfolding execute_loop
loop_conserves p s s' v v' [] agrees disjoint e = ap (λ r. total (r.0)) (sym (ok-injective e))
loop_conserves p s s' v v' (tx ∷ txs) (agree, agrees) (spares, disjoint) e =
    let (mid, one, rest) = >>=-eq-ok (execute_one p (s, v) tx) _ e in
    elim (execute_one-cases p s v tx mid.0 mid.1 one) [
      | inl refused ↦
          loop_conserves p mid.0 s' mid.1 v' txs (rw (refused.0) agrees) disjoint rest
          ∙ ap total refused.0
      | inr (takes, _) ↦
          loop_conserves p mid.0 s' mid.1 v' txs (Agrees-Takes p s mid.0 tx txs takes spares agrees)
            disjoint rest
          ∙ total-Takes p s mid.0 tx takes agree
    ]

pub Agrees-refl : (p : State) (txs : List SignedTransaction) → All (Agrees p p) txs
Agrees-refl p [] = tt
Agrees-refl p (tx ∷ txs) = ((refl, refl), Agrees-refl p txs)

-- A list of transactions in which no two share an account keeps the sum of all balances, whenever
-- `execute_tx` returns.
pub execute_tx_conserves :
    (p s' : State) (v' txs : List SignedTransaction)
    → IsDisjoint txs
    → execute_tx p txs ≡ ok (s', v')
    → total s' ≡ total p
unfolding execute_tx
execute_tx_conserves p s' v' txs disjoint e =
    loop_conserves p p s' [] v' txs (Agrees-refl p txs) disjoint e

loop_of_two :
    (p s' : State) (v' : List SignedTransaction) (tx tx' : SignedTransaction)
    → accepts p tx ≡ true
    → accepts p tx' ≡ true
    → execute_loop p (p, []) (tx ∷ tx' ∷ []) ≡ ok (s', v')
    → (s : State) × Takes p p tx s × Takes p s tx' s'
unfolding execute_loop
loop_of_two p s' v' tx tx' ac ac' e =
    let (mid, one, rest) = >>=-eq-ok (execute_one p (p, []) tx) _ e in
    let (last, two, end) = >>=-eq-ok (execute_one p mid tx') _ rest in
    elim (execute_one-cases p p [] tx mid.0 mid.1 one) [
      | inl refused ↦ cc (sym ac ∙ refused.2)
      | inr (takes, _) ↦ elim (execute_one-cases p mid.0 mid.1 tx' last.0 last.1 two) [
        | inl refused ↦ cc (sym ac' ∙ refused.2)
        | inr (takes', _) ↦ (
          mid.0,
          takes,
          subst (λ (r : State × List SignedTransaction). Takes p mid.0 tx' r.0) (ok-injective end)
              takes',
        )
      ]
    ]

second_debit :
    (p s s' : State) (tx tx' : SignedTransaction)
    → Takes p p tx s
    → Takes p s tx' s'
    → tx'.transaction.sender ≡ tx.transaction.sender
    → tx.transaction.receiver ≢ tx.transaction.sender
    → tx'.transaction.receiver ≢ tx.transaction.sender
    → tx.transaction.receiver ≢ tx'.transaction.receiver
    → total s' ≡ total p + tx.transaction.value
second_debit p s s' tx tx' takes takes' same ne ne' distinct =
    let t = tx.transaction in
    let t' = tx'.transaction in
    let first = total-Takes p p s tx takes (refl, refl) in
    let spared =
      get-write_accounts p t takes.funds (get p t.receiver) s t'.receiver (λ h. ne' (sym h))
        distinct takes.written in
    let (left, entry, debited) =
      get-write_accounts_sender p t takes.funds (get p t.receiver) s takes.written in
    let second =
      total-write_accounts s t' takes'.funds (get p t'.receiver) s' spared takes'.covered
        takes'.written in
    let rest : balance_or_zero (get s t'.sender) ≡ takes.funds - t.value =
      ap balance_or_zero (ap (get s) same ∙ entry)
      ∙ debited (==_ne t.sender t.receiver (λ h. ne (sym h))) in
    let funds : takes'.funds ≡ takes.funds =
      ap balance_or_zero (sym takes'.known ∙ ap (get p) same ∙ takes.known) in
    omega (arith, first, second, rest, funds, takes.covered)

-- Two transactions of one sender, both accepted by the parent's state, to two different accounts that
-- are not the sender's: where `execute_tx` returns, the sum of the balances has grown by the value
-- of the first one.
pub double_spend :
    (p s' : State) (v' : List SignedTransaction) (tx tx' : SignedTransaction)
    → accepts p tx ≡ true
    → accepts p tx' ≡ true
    → tx'.transaction.sender ≡ tx.transaction.sender
    → tx.transaction.receiver ≢ tx.transaction.sender
    → tx'.transaction.receiver ≢ tx.transaction.sender
    → tx.transaction.receiver ≢ tx'.transaction.receiver
    → execute_tx p (tx ∷ tx' ∷ []) ≡ ok (s', v')
    → total s' ≡ total p + tx.transaction.value
unfolding execute_tx
double_spend p s' v' tx tx' ac ac' same ne ne' distinct e =
    let (s, takes, takes') = loop_of_two p s' v' tx tx' ac ac' e in
    second_debit p s s' tx tx' takes takes' same ne ne' distinct
