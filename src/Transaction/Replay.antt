-- ===== src/Transaction/Replay.antt =====
-- Whether a transaction of a block can be executed again on the state after the block.
use native.Mathlib.Omega.{arith}
use final.Base.{
  ◌+◌, ◌≡◌, ◌≢◌, refl, ap, sym, ◌∙◌, List, [], ◌∷◌, ◌++◌, All, inl, inr, some, true, false, ok,
  ==_ne, bind_assoc, bind_cong, ◌>>=◌, >>=-eq-ok, Option-cases,
}
use final.Base.HashMap.{get, get-insert_self}
use final.Data.{address_key, State, SignedTransaction}
use final.Transaction.{nonce_or_zero, balance_or_zero, execute_one, execute_loop, execute_tx}
use final.Transaction.Ledger.{get-write_accounts_sender, write_accounts-other}
use final.Transaction.Execution.{Takes, accepts, execute_one-cases}
use final.Transaction.Conservation.{Spares, loop-Spares}

execute_loop-append :
    (p : State) (acc : State × List SignedTransaction) (xs ys : List SignedTransaction)
    → execute_loop p acc (xs ++ ys) ≡ (execute_loop p acc xs >>= λ next. execute_loop p next ys)
unfolding execute_loop
execute_loop-append p acc [] ys = refl
execute_loop-append p acc (x ∷ xs) ys =
    bind_cong (execute_one p acc x) _ _ (λ next ran. execute_loop-append p next xs ys)
    ∙ sym (
        bind_assoc (execute_one p acc x) (λ next. execute_loop p next xs)
          (λ next. execute_loop p next ys))

-- The round of one accepted transaction in the middle of a list.
round_inside :
    (p s' : State) (v' before after : List SignedTransaction) (tx : SignedTransaction)
    → accepts p tx ≡ true
    → execute_tx p (before ++ tx ∷ after) ≡ ok (s', v')
    → (s mid : State) × (v : List SignedTransaction) × Takes p s tx mid
      × (execute_loop p (mid, v) after ≡ ok (s', v'))
unfolding execute_tx execute_loop
round_inside p s' v' before after tx ac e =
    let (first, _, rest) =
      >>=-eq-ok (execute_loop p (p, []) before) (λ next. execute_loop p next (tx ∷ after))
        (sym (execute_loop-append p (p, []) before (tx ∷ after)) ∙ e) in
    let (mid, one, later) = >>=-eq-ok (execute_one p first tx) _ rest in
    elim (execute_one-cases p first.0 first.1 tx mid.0 mid.1 one) [
      | inl refused ↦ cc (sym ac ∙ refused.2)
      | inr (takes, _) ↦ (first.0, mid.0, mid.1, takes, later)
    ]

-- A transaction in a list, accepted by the parent's state, such that no later transaction of the list
-- touches its sender: where `execute_tx` returns, the new state does not accept it.
pub executed_once :
    (p s' : State) (v' before after : List SignedTransaction) (tx : SignedTransaction)
    → accepts p tx ≡ true
    → All (Spares tx.transaction.sender) after
    → execute_tx p (before ++ tx ∷ after) ≡ ok (s', v')
    → accepts s' tx ≡ false
unfolding accepts
executed_once p s' v' before after tx ac spares e =
    let (s, mid, v, takes, later) = round_inside p s' v' before after tx ac e in
    let t = tx.transaction in
    let (left, entry, _) =
      get-write_accounts_sender s t takes.funds (get p t.receiver) mid takes.written in
    let stands : get s' t.sender ≡ some (t.account_nonce, left) =
      loop-Spares p mid s' v v' after t.sender spares later ∙ entry in
    rw (stands, accepts) (ground arith)

-- What an accepted payment leaves at its receiver: the parent's nonce, and the parent's balance with
-- the value.
received :
    (p s s' : State) (tx : SignedTransaction)
    → Takes p s tx s'
    → tx.transaction.sender ≢ tx.transaction.receiver
    → get s' tx.transaction.receiver
      ≡ some (
        nonce_or_zero (get p tx.transaction.receiver),
        balance_or_zero (get p tx.transaction.receiver) + tx.transaction.value,
      )
received p s s' tx takes ne =
    let t = tx.transaction in
    let other = ==_ne t.sender t.receiver ne in
    rw (write_accounts-other s t takes.funds (get p t.receiver) s' other takes.written)
      (get-insert_self _ t.receiver _)

-- A payment to an account from another one, accepted by the parent's state, such that no later
-- transaction of the list touches the account: where `execute_tx` returns, the new state accepts
-- every transaction of that account that the parent's state accepts, those of the list included.
pub incoming_payment_replays :
    (p s' : State) (v' before after : List SignedTransaction) (pay tx : SignedTransaction)
    → accepts p pay ≡ true
    → pay.transaction.sender ≢ pay.transaction.receiver
    → All (Spares pay.transaction.receiver) after
    → execute_tx p (before ++ pay ∷ after) ≡ ok (s', v')
    → tx.transaction.sender ≡ pay.transaction.receiver
    → accepts p tx ≡ true
    → accepts s' tx ≡ true
unfolding accepts
incoming_payment_replays p s' v' before after pay tx paid ne spares e from ac =
    let (s, mid, v, takes, later) = round_inside p s' v' before after pay paid e in
    let account = pay.transaction.receiver in
    let stands =
      loop-Spares p mid s' v v' after account spares later ∙ received p s mid pay takes ne in
    elim (Option-cases (get p account)) [
      | inl unknown ↦ cc (sym (rw (ap (get p) from ∙ unknown, accepts) at ac))
      | inr (entry, known) ↦
          let now : get s' tx.transaction.sender ≡ some (entry.0, entry.1 + pay.transaction.value) =
            ap (get s') from ∙ rw known at stands in
          let old = rw (ap (get p) from ∙ known, accepts) at ac in
          rw (now, accepts) (ground (arith, old))
    ]
