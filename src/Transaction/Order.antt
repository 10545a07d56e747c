-- ===== src/Transaction/Order.antt =====
-- A ledger is a state up to the order of its entries; the order of the transactions of a block.
use mathlib.Core.List.{Permᴰ}
use mathlib.Core.List.Permᴰ.{refl as Permᴰ-refl}
use mathlib.Core.Path.{subst}
use mathlib.Core.Quot
use mathlib.Core.Quot.{Quot}
use final.Base.{
  ℕ, ◌≡◌, refl, ap, sym, ◌∙◌, List, [], All, inl, inr, Option, false, ok, ◌==◌, ==_eq, ==_ne,
  Bool-cases,
}
use final.Base.HashMap.{get}
use final.Data.{Address, address_key, State, SignedTransaction}
use final.Transaction.{execute_tx}
use final.Transaction.Execution.{accepts, accepted, execute_tx-accepted}
use final.Transaction.Conservation.{Spares, IsDisjoint}
use final.Transaction.Returning.{Returns, loop-Returns, execute_loop_total}
use final.Transaction.Effect.{entry_after, effect, effects, get-execute_tx}

-- The same entry for every account.
abbrev pub SameEntries : State → State → Type 0
SameEntries s s' = (a : Address) → get s a ≡ get s' a

-- The state that an iteration or a lookup cannot tell apart from another.
abbrev pub Ledger : Type 0
Ledger = Quot SameEntries

abbrev pub ledger : State → Ledger
ledger s = Quot.mk s

-- Each account of one transaction is spared by the other.
abbrev IsApart : SignedTransaction → SignedTransaction → Type 0
IsApart x y = Spares y.transaction.sender x × Spares y.transaction.receiver x

IsApart-sym : (x y : SignedTransaction) → IsApart x y → IsApart y x
IsApart-sym x y ((ss, rs), (sr, rr)) =
    ((λ e. ss (sym e), λ e. sr (sym e)), (λ e. rs (sym e), λ e. rr (sym e)))

module _ (p : State) where
  effect-Spares :
      (tx : SignedTransaction) (a : Address) (o : Option (ℕ × ℕ))
      → Spares a tx
      → effect p tx a o ≡ o
  unfolding effect entry_after
  effect-Spares tx a o (sender, receiver) = elim (Bool-cases (accepts p tx)) [
    | inl good ↦ rw (good, ==_ne _ a sender, ==_ne _ a receiver) refl
    | inr bad ↦ rw bad refl
  ]

  -- Where the first one touches an account, the second one does not.
  effect_comm-touched :
      (x y : SignedTransaction) (a : Address) (o : Option (ℕ × ℕ))
      → Spares a y
      → effect p y a (effect p x a o) ≡ effect p x a (effect p y a o)
  effect_comm-touched x y a o spares =
      effect-Spares y a (effect p x a o) spares
      ∙ ap (effect p x a) (sym (effect-Spares y a o spares))

  effect_comm :
      (x y : SignedTransaction) (a : Address) (o : Option (ℕ × ℕ))
      → IsApart x y
      → effect p y a (effect p x a o) ≡ effect p x a (effect p y a o)
  effect_comm x y a o apart =
      let back = IsApart-sym x y apart in
      elim (Bool-cases (x.transaction.sender == a)) [
        | inl sends ↦
            effect_comm-touched x y a o
              (subst (λ b. Spares b y) (==_eq x.transaction.sender a sends) back.0)
        | inr not_sender ↦ elim (Bool-cases (x.transaction.receiver == a)) [
          | inl receives ↦
              effect_comm-touched x y a o
                (subst (λ b. Spares b y) (==_eq x.transaction.receiver a receives) back.1)
          | inr not_receiver ↦
              sym (
                effect_comm-touched y x a o
                  (λ e. differs not_sender e, λ e. differs not_receiver e))
        ]
      ]
    where
      differs : {b : Address} → (b == a) ≡ false → b ≡ a → ⊥
      differs test e = cc (sym test ∙ (address_key.eq_iff _ a).1 e)

  All-perm :
      (P : SignedTransaction → Type 0) {xs ys : List SignedTransaction}
      → Permᴰ xs ys
      → All P xs
      → All P ys
  All-perm P Permᴰ.nil all = tt
  All-perm P (Permᴰ.cons e d) (first, all) = (subst P e first, All-perm P d all)
  All-perm P (Permᴰ.swap e e') (first, (second, all)) = (subst P e' second, (subst P e first, all))
  All-perm P (Permᴰ.trans d d') all = All-perm P d' (All-perm P d all)

  IsDisjoint-perm : {xs ys : List SignedTransaction} → Permᴰ xs ys → IsDisjoint xs → IsDisjoint ys
  IsDisjoint-perm Permᴰ.nil disjoint = tt
  IsDisjoint-perm (Permᴰ.cons {a} {b} {l₂ = ys} e d) (apart, disjoint) =
      (subst (λ t. All (IsApart t) ys) e (All-perm (IsApart a) d apart), IsDisjoint-perm d disjoint)
  IsDisjoint-perm (Permᴰ.swap {a} {b} {b' = b'} {l = l} e e') ((near, far), (far', disjoint)) = (
    (
      subst (λ t. IsApart t b') e' (subst (IsApart b) e (IsApart-sym a b near)),
      subst (λ t. All (IsApart t) l) e' far',
    ),
    (subst (λ t. All (IsApart t) l) e far, disjoint),
  )
  IsDisjoint-perm (Permᴰ.trans d d') disjoint = IsDisjoint-perm d' (IsDisjoint-perm d disjoint)

  effects_perm :
      {xs ys : List SignedTransaction} (a : Address) (o : Option (ℕ × ℕ))
      → Permᴰ xs ys
      → IsDisjoint xs
      → effects p xs a o ≡ effects p ys a o
  unfolding effects
  effects_perm a o Permᴰ.nil disjoint = refl
  effects_perm a o (Permᴰ.cons {l₂ = ys} e d) (apart, disjoint) =
      effects_perm a (effect p _ a o) d disjoint ∙ ap (λ t. effects p ys a (effect p t a o)) e
  effects_perm a o (Permᴰ.swap {a = x} {b = y} {b' = x'} {l = l} e e') ((apart, _), disjoint) =
      ap (effects p l a) (effect_comm x y a o apart)
      ∙ ap (λ t. effects p l a (effect p t a (effect p y a o))) e
      ∙ ap (λ t. effects p l a (effect p x' a (effect p t a o))) e'
  effects_perm a o (Permᴰ.trans d d') disjoint =
      effects_perm a o d disjoint ∙ effects_perm a o d' (IsDisjoint-perm d disjoint)

  accepted_perm :
      {xs ys : List SignedTransaction} → Permᴰ xs ys → Permᴰ (accepted p xs) (accepted p ys)
  unfolding accepted
  accepted_perm Permᴰ.nil = Permᴰ.nil
  accepted_perm (Permᴰ.cons {a} {b} e d) =
      let same : accepts p b ≡ accepts p a = ap (accepts p) (sym e) in
      elim (Bool-cases (accepts p a)) [
        | inl good ↦ rw (same, good) (Permᴰ.cons e (accepted_perm d))
        | inr bad ↦ rw (same, bad) (accepted_perm d)
      ]
  accepted_perm (Permᴰ.swap {a = x} {b = y} {a' = y'} {b' = x'} {l = l} e e') =
      let same : accepts p x' ≡ accepts p x = ap (accepts p) (sym e) in
      let same' : accepts p y' ≡ accepts p y = ap (accepts p) (sym e') in
      let rest = Permᴰ-refl (accepted p l) in
      elim (Bool-cases (accepts p x)) [
        | inl good ↦ elim (Bool-cases (accepts p y)) [
          | inl good' ↦ rw (same, same', good, good') (Permᴰ.swap e e')
          | inr bad' ↦ rw (same, same', good, bad') (Permᴰ.cons e rest)
        ]
        | inr bad ↦ elim (Bool-cases (accepts p y)) [
          | inl good' ↦ rw (same, same', bad, good') (Permᴰ.cons e' rest)
          | inr bad' ↦ rw (same, same', bad, bad') rest
        ]
      ]
  accepted_perm (Permᴰ.trans d d') = Permᴰ.trans (accepted_perm d) (accepted_perm d')

  -- The transactions of a block in another order, where no two share an account: if `execute_tx`
  -- returns, then so it does for the other order, with the same ledger, and keeps the same
  -- transactions up to their order.
  pub execute_tx_perm :
      (s : State) (v xs ys : List SignedTransaction)
      → Permᴰ xs ys
      → IsDisjoint xs
      → execute_tx p xs ≡ ok (s, v)
      → (s' : State) × (v' : List SignedTransaction) × (execute_tx p ys ≡ ok (s', v'))
        × (ledger s ≡ ledger s')
        × Permᴰ v v'
  unfolding execute_tx
  execute_tx_perm s v xs ys d disjoint e =
      let ((s', v'), ran) =
        execute_loop_total p (p, []) ys
          (All-perm (Returns p) d (loop-Returns p (p, []) (s, v) xs e)) in
      (
        s',
        v',
        ran,
        Quot.sound (λ a.
            get-execute_tx p s v xs a e
            ∙ effects_perm a (get p a) d disjoint
            ∙ sym (get-execute_tx p s' v' ys a ran)),
        subst (λ l. Permᴰ l v') (sym (execute_tx-accepted p s v xs e))
            (subst (λ l. Permᴰ (accepted p xs) l) (sym (execute_tx-accepted p s' v' ys ran))
              (accepted_perm d)),
      )
