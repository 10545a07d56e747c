-- ===== src/Transaction/Bounds.antt =====
-- What the numbers of a state can be after a block's transactions: they are u32 in the source.
use native.Mathlib.Omega.{arith}
use mathlib.Core.Path.{subst}
use final.Base.{
  ℕ, ◌+◌, ◌-◌, ◌^◌, ◌≤◌, ◌<◌, ◌≡◌, ap, sym, List, [], ◌∷◌, Bool-cases, inl, inr, ok, ◌==◌, ==_eq,
  >>=-eq-ok, ok-injective, add_u32,
}
use final.Base.HashMap.{get, insert, get-insert}
use final.Data.{Address, address_key, State, Transaction, SignedTransaction}
use final.Transaction.{
  nonce_or_zero, balance_or_zero, write_accounts, execute_one, execute_loop, execute_tx,
}
use final.Transaction.Execution.{execute_one-cases}

-- The nonce and the balance of an account in a state that a block has built on `p`.
abbrev pub IsWithin : State → Address → ℕ → ℕ → Type 0
IsWithin p a nonce balance =
    (nonce_or_zero (get p a) ≤ nonce)
    × (nonce ≤ nonce_or_zero (get p a) + 1)
    × (nonce < 2 ^ 32)
    × (balance < 2 ^ 32)

abbrev pub IsBounded : State → State → Type 0
IsBounded p s = (a : Address) → IsWithin p a (nonce_or_zero (get s a)) (balance_or_zero (get s a))

insert-IsBounded :
    (p s : State) (k : Address) (nonce balance : ℕ)
    → IsWithin p k nonce balance
    → IsBounded p s
    → IsBounded p (insert s k (nonce, balance))
insert-IsBounded p s k nonce balance within bounded a =
    let law = get-insert s k a (nonce, balance) in
    elim (Bool-cases (k == a)) [
      | inl same ↦ rw (law, same) (subst (λ b. IsWithin p b nonce balance) (==_eq k a same) within)
      | inr other ↦ rw (law, other) (bounded a)
    ]

-- What the source's types give of a state: both numbers of an entry are u32.
abbrev pub IsU32 : State → Type 0
IsU32 p = (a : Address) → (nonce_or_zero (get p a) < 2 ^ 32) × (balance_or_zero (get p a) < 2 ^ 32)

add_u32_fits : (a b c : ℕ) → add_u32 a b ≡ ok c → c < 2 ^ 32
add_u32_fits a b c e = ground arith

write_accounts-IsBounded :
    (p s s' : State) (t : Transaction) (funds : ℕ)
    → IsU32 p
    → IsWithin p t.sender t.account_nonce funds
    → write_accounts s t funds (get p t.receiver) ≡ ok s'
    → IsBounded p s
    → IsBounded p s'
unfolding write_accounts
write_accounts-IsBounded p s s' t funds fits within e bounded =
    let less : IsWithin p t.sender t.account_nonce (funds - t.value) = omega (arith, within) in
    let debited = insert-IsBounded p s t.sender t.account_nonce (funds - t.value) less bounded in
    elim (Bool-cases (t.sender == t.receiver)) [
      | inl same ↦
          subst (IsBounded p) (ok-injective (rw same at e))
            (insert-IsBounded p _ t.sender t.account_nonce funds within debited)
      | inr other ↦
          let (credited, added, end) =
            >>=-eq-ok (add_u32 (balance_or_zero (get p t.receiver)) t.value) _ (rw other at e) in
          subst (IsBounded p) (ok-injective end) (
            insert-IsBounded p _ t.receiver (nonce_or_zero (get p t.receiver)) credited
              (omega (
                arith,
                fits t.receiver,
                add_u32_fits (balance_or_zero (get p t.receiver)) t.value credited added,
              ))
              debited)
    ]

loop-IsBounded :
    (p s s' : State) (v v' txs : List SignedTransaction)
    → IsU32 p
    → execute_loop p (s, v) txs ≡ ok (s', v')
    → IsBounded p s
    → IsBounded p s'
unfolding execute_loop
loop-IsBounded p s s' v v' [] fits e bounded =
    subst (λ (r : State × List SignedTransaction). IsBounded p r.0) (ok-injective e) bounded
loop-IsBounded p s s' v v' (tx ∷ txs) fits e bounded =
    let (mid, one, rest) = >>=-eq-ok (execute_one p (s, v) tx) _ e in
    loop-IsBounded p mid.0 s' mid.1 v' txs fits rest
      (elim (execute_one-cases p s v tx mid.0 mid.1 one) [
        | inl refused ↦ subst (IsBounded p) (sym refused.0) bounded
        | inr (takes, _) ↦
            let t = tx.transaction in
            let nonce = ap nonce_or_zero takes.known in
            let balance = ap balance_or_zero takes.known in
            write_accounts-IsBounded p s mid.0 t takes.funds fits
              (omega (arith, nonce, balance, takes.next, takes.fits, fits t.sender)) takes.written
              bounded
      ])

-- If every nonce and balance of the parent's state is a u32 and `execute_tx` returns, then every
-- nonce and balance of the new state is a u32, and no nonce is less than it was, or more than one
-- above it.
pub execute_tx-IsBounded :
    (p s' : State) (v' txs : List SignedTransaction)
    → IsU32 p
    → execute_tx p txs ≡ ok (s', v')
    → IsBounded p s'
unfolding execute_tx
execute_tx-IsBounded p s' v' txs fits e =
    loop-IsBounded p p s' [] v' txs fits e (λ a. omega (arith, fits a))
