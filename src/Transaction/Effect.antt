-- ===== src/Transaction/Effect.antt =====
-- `execute_tx` from the point of view of one account.
use final.Base.{
  ℕ, ◌+◌, ◌-◌, ◌≡◌, refl, ap, sym, ◌∙◌, List, [], ◌∷◌, inl, inr, Option, some, ok, ◌==◌, ==_eq,
  Bool-cases, if◌then◌else◌, >>=-eq-ok, ok-injective,
}
use final.Base.HashMap.{get, insert, get-insert}
use final.Data.{Address, address_key, Transaction, State, SignedTransaction}
use final.Transaction.{nonce_or_zero, balance_or_zero, execute_one, execute_loop, execute_tx}
use final.Transaction.Ledger.{write_accounts_self, write_accounts-other}
use final.Transaction.Execution.{Takes, accepts, execute_one-cases}

-- What an executed transaction makes of the entry of one account: the receiver of a payment gets the
-- value on top of the parent's balance and keeps the parent's nonce, and the sender has the nonce of
-- the transaction and pays from the parent's balance, unless it pays itself.
unfoldable pub entry_after : State → Transaction → Address → Option (ℕ × ℕ) → Option (ℕ × ℕ)
entry_after p t a entry =
    if t.receiver == a
    then (if t.sender == t.receiver
        then some (t.account_nonce, balance_or_zero (get p t.sender))
        else some (nonce_or_zero (get p t.receiver), balance_or_zero (get p t.receiver) + t.value))
    else (if t.sender == a
        then some (t.account_nonce, balance_or_zero (get p t.sender) - t.value)
        else entry)

-- A transaction that the parent's state does not accept has no effect.
unfoldable pub effect : State → SignedTransaction → Address → Option (ℕ × ℕ) → Option (ℕ × ℕ)
unfolding entry_after
effect p tx a entry = if accepts p tx then entry_after p tx.transaction a entry else entry

-- The transactions of a block, one after the other.
unfoldable pub effects : State → List SignedTransaction → Address → Option (ℕ × ℕ) → Option (ℕ × ℕ)
unfolding effect
effects p [] a entry = entry
effects p (tx ∷ txs) a entry = effects p txs a (effect p tx a entry)

get-Takes :
    (p s s' : State) (tx : SignedTransaction) (a : Address)
    → Takes p s tx s'
    → get s' a ≡ entry_after p tx.transaction a (get s a)
unfolding entry_after
get-Takes p s s' tx a takes =
    let t = tx.transaction in
    let debited = insert s t.sender (t.account_nonce, takes.funds - t.value) in
    let funds : balance_or_zero (get p t.sender) ≡ takes.funds = ap balance_or_zero takes.known in
    let first = get-insert s t.sender a (t.account_nonce, takes.funds - t.value) in
    elim (Bool-cases (t.sender == t.receiver)) [
      | inl same ↦
          let second = get-insert debited t.sender a (t.account_nonce, takes.funds) in
          let test : (t.receiver == a) ≡ (t.sender == a) =
            ap (λ b. b == a) (sym (==_eq t.sender t.receiver same)) in
          let written =
            write_accounts_self s t takes.funds (get p t.receiver) s' same takes.written in
          elim (Bool-cases (t.sender == a)) [
            | inl at_a ↦ rw (written, second, test, same, at_a, funds) refl
            | inr elsewhere ↦ rw (written, second, test, first, elsewhere) refl
          ]
      | inr other ↦
          let second =
            get-insert debited t.receiver a
              (nonce_or_zero (get p t.receiver), balance_or_zero (get p t.receiver) + t.value) in
          rw
            (
              write_accounts-other s t takes.funds (get p t.receiver) s' other takes.written,
              second,
              first,
              other,
              funds,
            )
            refl
    ]

loop_effects :
    (p s s' : State) (v v' txs : List SignedTransaction) (a : Address)
    → execute_loop p (s, v) txs ≡ ok (s', v')
    → get s' a ≡ effects p txs a (get s a)
unfolding execute_loop effects effect
loop_effects p s s' v v' [] a e = ap (λ r. get (r.0) a) (sym (ok-injective e))
loop_effects p s s' v v' (tx ∷ txs) a e =
    let (mid, one, rest) = >>=-eq-ok (execute_one p (s, v) tx) _ e in
    let later = loop_effects p mid.0 s' mid.1 v' txs a rest in
    elim (execute_one-cases p s v tx mid.0 mid.1 one) [
      | inl (same, _, refused) ↦ rw refused (later ∙ ap (λ m. effects p txs a (get m a)) same)
      | inr (takes, _) ↦
          rw (takes.test) (later ∙ ap (effects p txs a) (get-Takes p s mid.0 tx a takes))
    ]

-- The entry of any account after `execute_tx`, if it returns, is what the effects of the transactions
-- make of the parent's entry, one after the other.
pub get-execute_tx :
    (p s' : State) (v' txs : List SignedTransaction) (a : Address)
    → execute_tx p txs ≡ ok (s', v')
    → get s' a ≡ effects p txs a (get p a)
unfolding execute_tx
get-execute_tx p s' v' txs a e = loop_effects p p s' [] v' txs a e
