-- ===== src/Transaction/Execution.antt =====
-- Which transactions a block executes, that the rest have no effect, and that execution returns.
use native.Mathlib.Omega.{arith}
use mathlib.Core.List.{append_assoc, append-nil}
use final.Base.{
  ℕ, ◌+◌, ◌-◌, ◌^◌, ◌<◌, ◌≤◌, ◌≡◌, ◌≢◌, refl, ap, sym, ◌∙◌, List, [], ◌∷◌, ◌++◌, ◌==◌, Bool-cases,
  Option-cases, inl, inr, Bool, none, some, true, false, ◌&&◌, ◌⊎◌, ok, ==_refl, if◌then◌else◌, ltb,
  leb, nat_eq, >>=-eq-ok, ok-injective,
}
use final.Base.HashMap.{get, insert}
use final.Data.{Address, address_key, Transaction, State, SignedTransaction}
use final.Transaction.{
  nonce_or_zero, balance_or_zero, write_accounts, execute_one, execute_loop, execute_tx,
}
use final.Transaction.Ledger.{total, balances-le-total}

-- What the parent's state must say: the sender is known and has the value, and the nonce is next.
unfoldable pub accepts : State → SignedTransaction → Bool
accepts p tx = elim (get p tx.transaction.sender) [
  | none ↦ false
  | some (acc_nonce, balance) ↦
      leb tx.transaction.value balance && nat_eq tx.transaction.account_nonce (acc_nonce + 1)
]

unfoldable pub accepted : State → List SignedTransaction → List SignedTransaction
accepted p [] = []
accepted p (tx ∷ txs) = if accepts p tx then tx ∷ accepted p txs else accepted p txs

-- A round that takes its transaction: from `s` to `s'`.
pub record Takes (p s : State) (tx : SignedTransaction) (s' : State) : Type 0 where
  pub acc_nonce : ℕ
  pub funds : ℕ
  pub known : get p tx.transaction.sender ≡ some (acc_nonce, funds)
  pub covered : tx.transaction.value ≤ funds
  pub fits : acc_nonce + 1 < 2 ^ 32
  pub next : tx.transaction.account_nonce ≡ acc_nonce + 1
  pub written : write_accounts s tx.transaction funds (get p tx.transaction.receiver) ≡ ok s'
  pub test : accepts p tx ≡ true

module _ (p s : State) (v : List SignedTransaction) (tx : SignedTransaction) where
  abbrev Round : State → List SignedTransaction → Type 0
  Round s' v' =
      ((s' ≡ s) × (v' ≡ v) × (accepts p tx ≡ false)) ⊎ (Takes p s tx s' × (v' ≡ v ++ tx ∷ []))

  Round-of_known :
      (acc_nonce funds : ℕ) (s' : State) (v' : List SignedTransaction)
      → get p tx.transaction.sender ≡ some (acc_nonce, funds)
      → execute_one p (s, v) tx ≡ ok (s', v')
      → Round s' v'
  unfolding execute_one accepts
  Round-of_known acc_nonce funds s' v' known e =
      elim (Bool-cases (ltb funds tx.transaction.value)) [
        | inl low ↦ inl (ground arith, ground arith, ground arith)
        | inr enough ↦ elim (Bool-cases (nat_eq tx.transaction.account_nonce (acc_nonce + 1))) [
          | inr wrong ↦ inl (ground arith, ground arith, ground arith)
          | inl next ↦ inr (
            record {
              acc_nonce = acc_nonce;
              funds = funds;
              known = known;
              covered = ground arith;
              fits = ground arith;
              next = ground arith;
              written = ground arith;
              test = ground arith;
            },
            ground arith,
          )
        ]
      ]

  pub execute_one-cases :
      (s' : State) (v' : List SignedTransaction)
      → execute_one p (s, v) tx ≡ ok (s', v')
      → Round s' v'
  unfolding execute_one accepts
  execute_one-cases s' v' e = elim (Option-cases (get p tx.transaction.sender)) [
    | inl unknown ↦ inl (ground arith, ground arith, ground arith)
    | inr ((acc_nonce, funds), known) ↦ Round-of_known acc_nonce funds s' v' known e
  ]

pub execute_one-Takes :
    (p s s' : State) (tx : SignedTransaction)
    → Takes p s tx s'
    → (v : List SignedTransaction) → execute_one p (s, v) tx ≡ ok (s', v ++ tx ∷ [])
unfolding execute_one
execute_one-Takes p s s' tx h v = ground (arith, h.known, h.covered, h.fits, h.next, h.written)

-- The loop as two lists: it appends the accepted transactions, and they alone decide the state.
loop-accepted :
    (p s s' : State) (v v' txs : List SignedTransaction)
    → execute_loop p (s, v) txs ≡ ok (s', v')
    → (v' ≡ v ++ accepted p txs)
      × ((u : List SignedTransaction)
          → execute_loop p (s, u) (accepted p txs) ≡ ok (s', u ++ accepted p txs))
unfolding execute_loop accepted
loop-accepted p s s' v v' [] e = (
  ap (λ r. r.1) (sym (ok-injective e)) ∙ sym (append-nil v),
  λ u. rw (append-nil u) (ap (λ r. ok (r.0, u)) (ok-injective e)),
)
loop-accepted p s s' v v' (tx ∷ txs) e =
    let (mid, one, rest) = >>=-eq-ok (execute_one p (s, v) tx) _ e in
    elim (execute_one-cases p s v tx mid.0 mid.1 one) [
      | inl (same, kept, refused) ↦
          let ih = loop-accepted p mid.0 s' mid.1 v' txs rest in
          (
            rw refused (ih.0 ∙ ap (λ k. k ++ accepted p txs) kept),
            λ u. rw refused (rw (← same) (ih.1 u)),
          )
      | inr (takes, grown) ↦
          let ih = loop-accepted p mid.0 s' mid.1 v' txs rest in
          (
            rw takes.test (
                ih.0
                ∙ ap (λ k. k ++ accepted p txs) grown
                ∙ append_assoc v (tx ∷ []) (accepted p txs)),
            λ u.
                rw (takes.test, execute_one-Takes p s mid.0 tx takes u)
                  (ih.1 (u ++ tx ∷ [])
                    ∙ ap (λ l. ok (s', l)) (append_assoc u (tx ∷ []) (accepted p txs))),
          )
    ]

-- The transactions that `execute_tx` returns, if it returns, are those that the parent's state
-- accepts, in order.
pub execute_tx-accepted :
    (p s' : State) (v' txs : List SignedTransaction)
    → execute_tx p txs ≡ ok (s', v')
    → v' ≡ accepted p txs
unfolding execute_tx
execute_tx-accepted p s' v' txs e = (loop-accepted p p s' [] v' txs e).0

-- Where an execution returned a state and the transactions that it kept, executing only those on the
-- same parent state returns the same state and keeps them all.
pub execute_tx-again :
    (p s' : State) (v' txs : List SignedTransaction)
    → execute_tx p txs ≡ ok (s', v')
    → execute_tx p v' ≡ ok (s', v')
unfolding execute_tx
execute_tx-again p s' v' txs e =
    let both = loop-accepted p p s' [] v' txs e in rw both.0 (both.1 [])

-- The nonces of the parent's state can be counted up.
abbrev pub NoncesFit : State → Type 0
NoncesFit p = (a : Address) → nonce_or_zero (get p a) + 1 < 2 ^ 32

-- After the debit of the sender.
abbrev debit : State → Transaction → ℕ → State
debit s t funds = insert s t.sender (t.account_nonce, funds - t.value)

write_accounts_returns :
    (p s : State) (t : Transaction) (funds : ℕ)
    → total p < 2 ^ 32
    → balance_or_zero (get p t.sender) ≡ funds
    → t.value ≤ funds
    → (s' : State) × (write_accounts s t funds (get p t.receiver) ≡ ok s')
unfolding write_accounts
write_accounts_returns p s t funds small e le = elim (Bool-cases (t.sender == t.receiver)) [
  | inl same ↦ (insert (debit s t funds) t.sender (t.account_nonce, funds), rw same)
  | inr other ↦
      let ne : t.sender ≢ t.receiver =
        λ h. cc (sym other ∙ ap (λ a. t.sender == a) (sym h) ∙ ==_refl t.sender) in
      let room : ltb (balance_or_zero (get p t.receiver) + t.value) (2 ^ 32) ≡ true =
        ground (arith, balances-le-total p t.sender t.receiver ne) in
      (
        insert (debit s t funds) t.receiver
            (nonce_or_zero (get p t.receiver), balance_or_zero (get p t.receiver) + t.value),
        rw (other, room),
      )
]

execute_one_returns :
    (p s : State) (v : List SignedTransaction) (tx : SignedTransaction)
    → total p < 2 ^ 32
    → NoncesFit p
    → (r : State × List SignedTransaction) × (execute_one p (s, v) tx ≡ ok r)
unfolding execute_one
execute_one_returns p s v tx small fit = elim (Option-cases (get p tx.transaction.sender)) [
  | inl unknown ↦ ((s, v), ground arith)
  | inr ((acc_nonce, funds), known) ↦
      let room : ltb (acc_nonce + 1) (2 ^ 32) ≡ true = ground (arith, fit tx.transaction.sender) in
      elim (Bool-cases (ltb funds tx.transaction.value)) [
        | inl low ↦ ((s, v), ground arith)
        | inr enough ↦ elim (Bool-cases (nat_eq tx.transaction.account_nonce (acc_nonce + 1))) [
          | inr wrong ↦ ((s, v), ground arith)
          | inl next ↦
              let (s', written) =
                write_accounts_returns p s tx.transaction funds small (ap balance_or_zero known)
                  (ground arith) in
              ((s', v ++ tx ∷ []), ground arith)
        ]
      ]
]

execute_loop_returns :
    (p s : State) (v txs : List SignedTransaction)
    → total p < 2 ^ 32
    → NoncesFit p
    → (r : State × List SignedTransaction) × (execute_loop p (s, v) txs ≡ ok r)
unfolding execute_loop
execute_loop_returns p s v [] small fit = ((s, v), refl)
execute_loop_returns p s v (tx ∷ txs) small fit =
    let (mid, one) = execute_one_returns p s v tx small fit in
    let (r, rest) = execute_loop_returns p mid.0 mid.1 txs small fit in (r, rw one rest)

-- If the coins of the parent's state fit in 32 bits and every nonce can be counted up, `execute_tx`
-- returns for every list of transactions: no addition overflows.
pub execute_tx_returns :
    (p : State) (txs : List SignedTransaction)
    → total p < 2 ^ 32
    → NoncesFit p
    → (r : State × List SignedTransaction) × (execute_tx p txs ≡ ok r)
unfolding execute_tx
execute_tx_returns p txs small fit = execute_loop_returns p p [] txs small fit
