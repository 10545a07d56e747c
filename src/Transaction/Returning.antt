-- ===== src/Transaction/Returning.antt =====
-- Whether `execute_tx` returns depends on each transaction and the parent's state alone.
use final.Base.{
  ℕ, ◌+◌, ◌^◌, ◌≡◌, refl, List, [], ◌∷◌, All, inl, inr, Option, ok, ◌==◌, ltb, nat_eq, Bool-cases,
  Option-cases, >>=-eq-ok,
}
use final.Base.HashMap.{get}
use final.Data.{address_key, Transaction, State, SignedTransaction}
use final.Transaction.{balance_or_zero, write_accounts, execute_one, execute_loop}

module _ (p : State) where
  -- A round returns from one state and list exactly if it returns from another.
  pub Returns : SignedTransaction → Type 0
  Returns tx =
      (acc : State × List SignedTransaction)
      → (r : State × List SignedTransaction) × (execute_one p acc tx ≡ ok r)

  write_accounts-Returns :
      (s u s' : State) (t : Transaction) (funds : ℕ) (entry : Option (ℕ × ℕ))
      → write_accounts s t funds entry ≡ ok s'
      → (u' : State) × (write_accounts u t funds entry ≡ ok u')
  unfolding write_accounts
  write_accounts-Returns s u s' t funds entry e = elim (Bool-cases (t.sender == t.receiver)) [
    | inl same ↦ rw same (_, refl)
    | inr other ↦ elim (Bool-cases (ltb (balance_or_zero entry + t.value) (2 ^ 32))) [
      | inl fits ↦ rw (other, fits) (_, refl)
      | inr over ↦ cc (rw (other, over) at e)
    ]
  ]

  execute_one-Returns :
      (acc r : State × List SignedTransaction) (tx : SignedTransaction)
      → execute_one p acc tx ≡ ok r
      → Returns tx
  unfolding Returns execute_one
  execute_one-Returns acc r tx e new = elim (Option-cases (get p tx.transaction.sender)) [
    | inl unknown ↦ rw (unknown, execute_one) (_, refl)
    | inr (entry, known) ↦ elim (Bool-cases (ltb entry.1 tx.transaction.value)) [
      | inl low ↦ rw (known, execute_one) (rw low (_, refl))
      | inr enough ↦ elim (Bool-cases (ltb (entry.0 + 1) (2 ^ 32))) [
        | inr over ↦ cc (rw over at rw enough at rw (known, execute_one) at e)
        | inl fits ↦ elim (Bool-cases (nat_eq tx.transaction.account_nonce (entry.0 + 1))) [
          | inr wrong ↦ rw (known, execute_one) (rw (enough, fits, wrong) (_, refl))
          | inl next ↦
              let (s', written, _) =
                >>=-eq-ok
                  (write_accounts acc.0 tx.transaction entry.1 (get p tx.transaction.receiver)) _
                  (rw (enough, fits, next) at rw (known, execute_one) at e) in
              let (u', again) =
                write_accounts-Returns acc.0 new.0 s' tx.transaction entry.1
                  (get p tx.transaction.receiver) written in
              rw (known, execute_one) (rw (enough, fits, next, again) (_, refl))
        ]
      ]
    ]
  ]

  pub loop-Returns :
      (acc r : State × List SignedTransaction) (xs : List SignedTransaction)
      → execute_loop p acc xs ≡ ok r
      → All Returns xs
  unfolding execute_loop
  loop-Returns acc r [] e = tt
  loop-Returns acc r (x ∷ xs) e =
      let (mid, one, rest) = >>=-eq-ok (execute_one p acc x) _ e in
      (execute_one-Returns acc mid x one, loop-Returns mid r xs rest)

  pub execute_loop_total :
      (acc : State × List SignedTransaction) (xs : List SignedTransaction)
      → All Returns xs
      → (r : State × List SignedTransaction) × (execute_loop p acc xs ≡ ok r)
  unfolding execute_loop Returns
  execute_loop_total acc [] all = (acc, refl)
  execute_loop_total acc (x ∷ xs) (first, all) =
      let (mid, one) = first acc in
      let (r, rest) = execute_loop_total mid xs all in (r, rw one rest)
