-- ===== src/Network/Server/Places.antt =====
-- Where a channel stands among all of them, and under which key its handle is a peer.
use native.Mathlib.Omega.{arith}
use final.Base.{
  ℕ, zero, suc, ◌≡◌, ◌⊎◌, refl, ap, sym, ◌∙◌, Bool, true, false, not, Option, none, some, List, [],
  ◌∷◌, ◌++◌, ◌==◌, PartialEq, length, get_elem?, nat_eq, ==_refl, ==_eq, if◌then◌else◌, Bool-cases,
  inl, inr,
}
use final.Base.HashMap.{HashMap, insert, retain}
use final.Network.Server.{Queue, Handle, update_at}

module _ {M : Type 0} where
  pub get-update_at :
      (f : Queue M → Queue M) (j i : ℕ) (queues : List (Queue M)) (q : Queue M)
      → get_elem? queues i ≡ some q
      → get_elem? (update_at f j queues) i ≡ some (if nat_eq j i then f q else q)
  get-update_at f j i [] q at_i = cc at_i
  get-update_at f zero zero (p ∷ queues) q at_i =
      ap (λ o. elim o [ none ↦ none | some k ↦ some (f k) ]) at_i
  get-update_at f zero (suc i) (p ∷ queues) q at_i =
      let differ : nat_eq 0 (suc i) ≡ false = ground arith in rw differ at_i
  get-update_at f (suc j) zero (p ∷ queues) q at_i =
      let differ : nat_eq (suc j) 0 ≡ false = ground arith in rw differ at_i
  get-update_at f (suc j) (suc i) (p ∷ queues) q at_i =
      let same : nat_eq (suc j) (suc i) ≡ nat_eq j i = ground arith in
      rw same (get-update_at f j i queues q at_i)

  -- A new channel comes after those that there are.
  pub get-more :
      (i : ℕ) (queues more : List (Queue M)) (q : Queue M)
      → get_elem? queues i ≡ some q
      → (get_elem? (queues ++ more) i ≡ some q) × (nat_eq (length queues) i ≡ false)
  get-more i [] more q at_i = cc at_i
  get-more zero (p ∷ queues) more q at_i = (at_i, ground arith)
  get-more (suc i) (p ∷ queues) more q at_i =
      let (there, ne) = get-more i queues more q at_i in (there, ground (arith, ne))

module _ {A : Type 0} ⦃e : PartialEq A⦄ where
  -- The handle of the channel `i` is a peer under this key and no other, or under none.
  abbrev pub IsKeyOf : ℕ → Option A → HashMap A (Handle A) → Type 0
  IsKeyOf i none [] = Unit
  IsKeyOf i (some a) [] = ⊥
  IsKeyOf i none (entry ∷ m) = (nat_eq entry.1.write_queue i ≡ false) × IsKeyOf i none m
  IsKeyOf i (some a) (entry ∷ m) =
      ((entry.0 ≡ a) × (nat_eq entry.1.write_queue i ≡ true) × IsKeyOf i none m)
      ⊎ (((entry.0 == a) ≡ false) × (nat_eq entry.1.write_queue i ≡ false) × IsKeyOf i (some a) m)

  -- Another channel under a key: where the key was that of `i`, `i` has none any more.
  insert-none :
      (i : ℕ) (b : A) (h : Handle A) (m : HashMap A (Handle A))
      → nat_eq h.write_queue i ≡ false
      → IsKeyOf i none m
      → IsKeyOf i none (insert m b h)
  unfolding insert
  insert-none i b h [] ne key = (ne, tt)
  insert-none i b h (entry ∷ m) ne (first, key) = elim (Bool-cases (entry.0 == b)) [
    | inl same ↦ rw same (ne, key)
    | inr other ↦ rw other (first, insert-none i b h m ne key)
  ]

  apart : (k a b : A) → (k == b) ≡ true → (k == a) ≡ false → (a == b) ≡ false
  apart k a b same other = elim (Bool-cases (a == b)) [
    | inl hit ↦
        let at_a : k ≡ a = ==_eq k b same ∙ sym (==_eq a b hit) in
        cc (sym other ∙ ap (λ c. c == a) at_a ∙ ==_refl a)
    | inr miss ↦ miss
  ]

  insert-some :
      (i : ℕ) (a b : A) (h : Handle A) (m : HashMap A (Handle A))
      → nat_eq h.write_queue i ≡ false
      → IsKeyOf i (some a) m
      → IsKeyOf i (if a == b then none else some a) (insert m b h)
  unfolding insert
  insert-some i a b h [] ne key = absurd key
  insert-some i a b h (entry ∷ m) ne (inl (same, at_entry, key)) = elim (Bool-cases (a == b)) [
    | inl hit ↦ rw (hit, same) (rw hit (ne, key))
    | inr miss ↦ rw (miss, same) (rw miss (inl (refl, at_entry, insert-none i b h m ne key)))
  ]
  insert-some i a b h (entry ∷ m) ne (inr (other, differ, key)) =
      let ih = insert-some i a b h m ne key in
      elim (Bool-cases (entry.0 == b)) [
        | inl same ↦
            let miss = apart entry.0 a b same other in
            let key_other : (b == a) ≡ false =
              ap (λ k. k == a) (sym (==_eq entry.0 b same)) ∙ other in
            rw (same, miss) (inr (key_other, ne, key))
        | inr elsewhere ↦ elim (Bool-cases (a == b)) [
          | inl hit ↦ rw (elsewhere, hit) (differ, rw hit at ih)
          | inr miss ↦ rw (elsewhere, miss) (inr (other, differ, rw miss at ih))
        ]
      ]

  retain-none :
      (i : ℕ) (keep : A → Bool) (m : HashMap A (Handle A))
      → IsKeyOf i none m
      → IsKeyOf i none (retain keep m)
  unfolding retain
  retain-none i keep [] key = tt
  retain-none i keep (entry ∷ m) (first, key) = elim (Bool-cases (keep entry.0)) [
    | inl kept ↦ rw kept (first, retain-none i keep m key)
    | inr gone ↦ rw gone (retain-none i keep m key)
  ]

  retain-some :
      (i : ℕ) (a b : A) (m : HashMap A (Handle A))
      → IsKeyOf i (some a) m
      → IsKeyOf i (if a == b then none else some a) (retain (λ other. not (other == b)) m)
  unfolding retain
  retain-some i a b [] key = absurd key
  retain-some i a b (entry ∷ m) (inl (same, at_entry, key)) = elim (Bool-cases (a == b)) [
    | inl hit ↦
        let gone : (entry.0 == b) ≡ true = ap (λ k. k == b) same ∙ hit in
        rw (gone, hit) (retain-none i (λ other. not (other == b)) m key)
    | inr miss ↦
        let kept : (entry.0 == b) ≡ false = ap (λ k. k == b) same ∙ miss in
        rw (kept, miss) (inl (same, at_entry, retain-none i (λ other. not (other == b)) m key))
  ]
  retain-some i a b (entry ∷ m) (inr (other, differ, key)) =
      let ih = retain-some i a b m key in
      elim (Bool-cases (entry.0 == b)) [
        | inl gone ↦ let miss = apart entry.0 a b gone other in rw (gone, miss) (rw miss at ih)
        | inr kept ↦ elim (Bool-cases (a == b)) [
          | inl hit ↦ rw (kept, hit) (differ, rw hit at ih)
          | inr miss ↦ rw (kept, miss) (inr (other, differ, rw miss at ih))
        ]
      ]

  -- The key that is left when the entry of `b` goes.
  abbrev pub key_without : A → Option A → Option A
  key_without b none = none
  key_without b (some a) = if a == b then none else some a

  pub insert-key :
      (i : ℕ) (key : Option A) (b : A) (h : Handle A) (m : HashMap A (Handle A))
      → nat_eq h.write_queue i ≡ false
      → IsKeyOf i key m
      → IsKeyOf i (key_without b key) (insert m b h)
  insert-key i none b h m ne key = insert-none i b h m ne key
  insert-key i (some a) b h m ne key = insert-some i a b h m ne key

  pub retain-key :
      (i : ℕ) (key : Option A) (b : A) (m : HashMap A (Handle A))
      → IsKeyOf i key m
      → IsKeyOf i (key_without b key) (retain (λ other. not (other == b)) m)
  retain-key i none b m key = retain-none i (λ other. not (other == b)) m key
  retain-key i (some a) b m key = retain-some i a b m key
