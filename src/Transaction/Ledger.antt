-- ===== src/Transaction/Ledger.antt =====
-- The coins of a state, and what `write_accounts` does to them and to each account.
use native.Mathlib.Omega.{arith}
use final.Base.{
  ℕ, ◌+◌, ◌-◌, ◌≤◌, ◌≡◌, ◌≢◌, refl, ap, sym, ◌∙◌, [], ◌∷◌, ◌==◌, Bool-cases, inl, inr, Option, some,
  true, false, ok, ==_eq, ==_refl,
}
use final.Base.HashMap.{get, insert, get-insert_self, get-insert_ne}
use final.Data.{Address, address_key, Transaction, State}
use final.Transaction.{nonce_or_zero, balance_or_zero, write_accounts}

-- The sum of all balances.
unfoldable pub total : State → ℕ
total [] = 0
total (entry ∷ s) = entry.1.1 + total s

pub balance : State → Address → ℕ
balance s a = balance_or_zero (get s a)

pub total-insert :
    (s : State) (a : Address) (v : ℕ × ℕ)
    → total (insert s a v) + balance_or_zero (get s a) ≡ total s + v.1
unfolding total insert get
total-insert [] a v = omega arith
total-insert (entry ∷ s) a v = ground (arith, total-insert s a v)

pub balance-le-total : (s : State) (a : Address) → balance_or_zero (get s a) ≤ total s
unfolding total get
balance-le-total [] a = omega arith
balance-le-total (entry ∷ s) a = ground (arith, balance-le-total s a)

pub balances-le-total :
    (s : State) (a b : Address)
    → a ≢ b
    → balance_or_zero (get s a) + balance_or_zero (get s b) ≤ total s
unfolding total get
balances-le-total [] a b ne = omega arith
balances-le-total (entry ∷ s) a b ne = ground (
  arith,
  balances-le-total s a b ne,
  balance-le-total s a,
  balance-le-total s b,
  ==_eq entry.0 a,
  ==_eq entry.0 b,
)

module _ (s : State) (t : Transaction) (sender_balance : ℕ) (receiver_entry : Option (ℕ × ℕ)) where
  abbrev debited : State
  debited = insert s t.sender (t.account_nonce, sender_balance - t.value)

  pub write_accounts_self :
      (s' : State)
      → (t.sender == t.receiver) ≡ true
      → write_accounts s t sender_balance receiver_entry ≡ ok s'
      → s' ≡ insert debited t.sender (t.account_nonce, sender_balance)
  unfolding write_accounts
  write_accounts_self s' same e = ground arith

  pub write_accounts-other :
      (s' : State)
      → (t.sender == t.receiver) ≡ false
      → write_accounts s t sender_balance receiver_entry ≡ ok s'
      → s'
        ≡ insert debited t.receiver
            (nonce_or_zero receiver_entry, balance_or_zero receiver_entry + t.value)
  unfolding write_accounts
  write_accounts-other s' other e = ground arith

  pub ne_of_other : (t.sender == t.receiver) ≡ false → t.sender ≢ t.receiver
  ne_of_other other e = cc (sym other ∙ ap (λ a. t.sender == a) (sym e) ∙ ==_refl t.sender)

  -- The write replaces the sender's balance by `sender_balance`, as far as the sum goes.
  pub total-write_accounts :
      (s' : State)
      → get s t.receiver ≡ receiver_entry
      → t.value ≤ sender_balance
      → write_accounts s t sender_balance receiver_entry ≡ ok s'
      → total s' + balance_or_zero (get s t.sender) ≡ total s + sender_balance
  total-write_accounts s' er le e = elim (Bool-cases (t.sender == t.receiver)) [
    | inl same ↦ rw (write_accounts_self s' same e) (
        omega (
          arith,
          total-insert s t.sender (t.account_nonce, sender_balance - t.value),
          total-insert debited t.sender (t.account_nonce, sender_balance),
          ap balance_or_zero
              (get-insert_self s t.sender (t.account_nonce, sender_balance - t.value)),
        ))
    | inr other ↦ rw (write_accounts-other s' other e) (
        omega (
          arith,
          total-insert s t.sender (t.account_nonce, sender_balance - t.value),
          total-insert debited t.receiver
              (nonce_or_zero receiver_entry, balance_or_zero receiver_entry + t.value),
          ap balance_or_zero (
              get-insert_ne s t.sender t.receiver (t.account_nonce, sender_balance - t.value)
                (ne_of_other other)
              ∙ er),
        ))
  ]

  -- No other account is written.
  pub get-write_accounts :
      (s' : State) (a : Address)
      → t.sender ≢ a
      → t.receiver ≢ a
      → write_accounts s t sender_balance receiver_entry ≡ ok s'
      → get s' a ≡ get s a
  get-write_accounts s' a ns nr e =
      let first = get-insert_ne s t.sender a (t.account_nonce, sender_balance - t.value) ns in
      elim (Bool-cases (t.sender == t.receiver)) [
        | inl same ↦ rw (write_accounts_self s' same e, get-insert_ne, ns) first
        | inr other ↦ rw (write_accounts-other s' other e, get-insert_ne, nr) first
      ]

  -- The sender's entry: the nonce of the transaction, and what is left, or all of it.
  pub get-write_accounts_sender :
      (s' : State)
      → write_accounts s t sender_balance receiver_entry ≡ ok s'
      → (b : ℕ) × (get s' t.sender ≡ some (t.account_nonce, b))
        × ((t.sender == t.receiver) ≡ false → b ≡ sender_balance - t.value)
  get-write_accounts_sender s' e = elim (Bool-cases (t.sender == t.receiver)) [
    | inl same ↦ (
      sender_balance,
      rw (write_accounts_self s' same e) (get-insert_self debited t.sender _),
      λ other. cc,
    )
    | inr other ↦ (
      sender_balance - t.value,
      rw
          (
            write_accounts-other s' other e,
            get-insert_ne,
            λ (h : t.receiver ≡ t.sender). ne_of_other other (sym h),
          )
          (get-insert_self s t.sender _),
      λ _. refl,
    )
  ]
