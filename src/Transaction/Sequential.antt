-- ===== src/Transaction/Sequential.antt =====
-- A ledger on which each transaction reads what the ones before it have written, against `execute_tx`.
use mathlib.Core.Path.{subst}
use final.Base.{
  ◌≡◌, refl, bind_cong, ap, sym, ◌∙◌, List, [], ◌∷◌, All, inl, inr, Option-cases, Run, ok, ◌>>=◌,
}
use final.Base.HashMap.{get}
use final.Data.{address_key, State, SignedTransaction}
use final.Transaction.{execute_one, execute_loop, execute_tx}
use final.Transaction.Execution.{execute_one-cases}
use final.Transaction.Conservation.{Agrees, Agrees-Takes, Agrees-refl, IsDisjoint}

-- The reference: every round has the state that the round before it left as its parent's state.
unfoldable pub execute_in_sequence :
    State → List SignedTransaction → List SignedTransaction → Run (State × List SignedTransaction)
execute_in_sequence state valid_tx [] = ok (state, valid_tx)
execute_in_sequence state valid_tx (tx ∷ txs) =
    execute_one state (state, valid_tx) tx >>= λ next. execute_in_sequence next.0 next.1 txs

-- A round depends on the parent's state only by the two accounts of its transaction.
execute_one-Agrees :
    (p s : State) (v : List SignedTransaction) (tx : SignedTransaction)
    → Agrees p s tx
    → execute_one p (s, v) tx ≡ execute_one s (s, v) tx
unfolding execute_one
execute_one-Agrees p s v tx (sender, receiver) = elim (Option-cases (get p tx.transaction.sender)) [
  | inl unknown ↦ rw (unknown, sender ∙ unknown, execute_one) refl
  | inr (entry, known) ↦ rw (known, sender ∙ known, execute_one) (rw receiver refl)
]

loop-sequence :
    (p s : State) (v txs : List SignedTransaction)
    → All (Agrees p s) txs
    → IsDisjoint txs
    → execute_loop p (s, v) txs ≡ execute_in_sequence s v txs
unfolding execute_loop execute_in_sequence
loop-sequence p s v [] agrees disjoint = refl
loop-sequence p s v (tx ∷ txs) (agree, agrees) (spares, disjoint) =
    bind_cong (execute_one p (s, v) tx) _ _ (λ mid one.
      loop-sequence p mid.0 mid.1 txs
        (elim (execute_one-cases p s v tx mid.0 mid.1 one) [
          | inl refused ↦ subst (λ m. All (Agrees p m) txs) (sym (refused.0)) agrees
          | inr (takes, _) ↦ Agrees-Takes p s mid.0 tx txs takes spares agrees
        ])
        disjoint)
    ∙ ap (λ m. m >>= λ next. execute_in_sequence next.0 next.1 txs)
        (execute_one-Agrees p s v tx agree)

-- On transactions of which no two share an account, `execute_tx`, which reads every account from the
-- parent's state, does what the reference does: it returns the same state and keeps the same
-- transactions, or panics where the reference panics.
pub execute_tx-sequence :
    (p : State) (txs : List SignedTransaction)
    → IsDisjoint txs
    → execute_tx p txs ≡ execute_in_sequence p [] txs
unfolding execute_tx
execute_tx-sequence p txs disjoint = loop-sequence p p [] txs (Agrees-refl p txs) disjoint
