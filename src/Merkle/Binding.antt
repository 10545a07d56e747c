-- ===== src/Merkle/Binding.antt =====
-- Binding of Merkle proofs: two items that verify at one place give a collision of SHA-256.
use native.Mathlib.Omega.{arith}
use final.Base.{
  ℕ, ◌≡◌, ◌≢◌, refl, ap, sym, ◌∙◌, List, [], ◌∷◌, ◌++◌, length, nat_eq, ◌⊎◌, All, Bool-cases, inl,
  inr, true, ok, >>=-eq-ok, ok-injective, ==_eq, bytes_eq, bytes_eq_of_true, bytes_eq_refl,
}
use final.Data.{H256, h256_key}
use final.External.{External, IsDocumented}
use final.Merkle.{concat_and_hash, pop, order_proof, fold_proof, verify}

-- Two different messages with one digest.
pub record Collision (x : External) : Type 0 where
  pub first : List ℕ
  pub second : List ℕ
  pub differ : first ≢ second
  pub collide : x.sha256 first ≡ x.sha256 second

-- a hash has 32 bytes
abbrev pub IsWide : H256 → Type 0
IsWide h = length h.bytes ≡ 32

append-injective : (a b c d : List ℕ) → length a ≡ length c → a ++ b ≡ c ++ d → (a ≡ c) × (b ≡ d)
append-injective [] b [] d e h = (refl, h)
append-injective [] b (y ∷ c) d e h = absurd (omega arith)
append-injective (z ∷ a) b [] d e h = absurd (omega arith)
append-injective (z ∷ a) b (y ∷ c) d e h = ground (arith, append-injective a b c d)

bytes-cases : (a b : List ℕ) → (a ≡ b) ⊎ (a ≢ b)
bytes-cases a b = elim (Bool-cases (bytes_eq a b)) [
  | inl same ↦ inl (bytes_eq_of_true a b same)
  | inr differ ↦ inr (λ e. ground (arith, bytes_eq_refl a))
]

-- One step that ends in the same hash began with the same two hashes.
concat-binds :
    (x : External) (a b c d : H256)
    → IsWide a
    → IsWide c
    → concat_and_hash x a b ≡ concat_and_hash x c d
    → ((a ≡ c) × (b ≡ d)) ⊎ Collision x
unfolding concat_and_hash
concat-binds x a b c d wa wc e = elim (bytes-cases (a.bytes ++ b.bytes) (c.bytes ++ d.bytes)) [
  | inl same ↦
      let parts = append-injective a.bytes b.bytes c.bytes d.bytes (wa ∙ sym wc) same in
      inl ((λ i. record { bytes = parts.0 i }), (λ i. record { bytes = parts.1 i }))
  | inr differ ↦ inr (record {
    first = a.bytes ++ b.bytes;
    second = c.bytes ++ d.bytes;
    differ = differ;
    collide = ap (λ h. h.bytes) e;
  })
]

concat-IsWide : (x : External) → IsDocumented x → (a b : H256) → IsWide (concat_and_hash x a b)
unfolding concat_and_hash
concat-IsWide x doc a b = doc.digest_length (a.bytes ++ b.bytes)

module _ (x : External) (doc : IsDocumented x) where
  -- One order and two proofs of one length: equal ends have equal starts.
  fold_proof-binds :
      (a b r : H256) (p q : List H256) (order : List ℕ)
      → length p ≡ length q
      → IsWide a × IsWide b × All IsWide p × All IsWide q
      → fold_proof x a p order ≡ ok r
      → fold_proof x b q order ≡ ok r
      → (a ≡ b) ⊎ Collision x
  unfolding fold_proof
  fold_proof-binds a b r [] [] order e w f g = inl (ok-injective (f ∙ sym g))
  fold_proof-binds a b r [] (s ∷ q) order e w f g = absurd (omega arith)
  fold_proof-binds a b r (s ∷ p) [] order e w f g = absurd (omega arith)
  fold_proof-binds a b r (s ∷ p) (s' ∷ q) [] e w f g = cc
  fold_proof-binds a b r (s ∷ p) (s' ∷ q) (o ∷ order) e (wa, wb, (ws, wp), (ws', wq)) f g =
      elim (Bool-cases (nat_eq ((pop o order).0) 0)) [
        | inl left ↦
            elim (fold_proof-binds (concat_and_hash x a s) (concat_and_hash x b s') r p q
              ((pop o order).1) (omega arith)
              (concat-IsWide x doc a s, concat-IsWide x doc b s', wp, wq) (rw left at f)
              (rw left at g)) [
                | inl same ↦ elim (concat-binds x a s b s' wa wb same) [
                  | inl parts ↦ inl (parts.0)
                  | inr collision ↦ inr collision
                ]
                | inr collision ↦ inr collision
              ]
        | inr right ↦
            elim (fold_proof-binds (concat_and_hash x s a) (concat_and_hash x s' b) r p q
              ((pop o order).1) (omega arith)
              (concat-IsWide x doc s a, concat-IsWide x doc s' b, wp, wq) (rw right at f)
              (rw right at g)) [
                | inl same ↦ elim (concat-binds x s a s' b ws ws' same) [
                  | inl parts ↦ inl (parts.1)
                  | inr collision ↦ inr collision
                ]
                | inr collision ↦ inr collision
              ]
      ]

  -- A verification that succeeds has computed the root.
  verify-fold_proof :
      (r datum : H256) (path : List H256) (index leaf_size : ℕ)
      → verify x r datum path index leaf_size ≡ ok true
      → (order : List ℕ) × (order_proof index leaf_size ≡ ok order)
        × (fold_proof x datum path order ≡ ok r)
  unfolding verify
  verify-fold_proof r datum path index leaf_size e =
      let (order, ordered, rest) = >>=-eq-ok (order_proof index leaf_size) _ e in
      let (top, folded, same) = >>=-eq-ok (fold_proof x datum path order) _ rest in
      (order, ordered, folded ∙ ap ok (==_eq top r (ok-injective same)))

  -- Two data that verify against one root at one index, with proofs of one length, are equal, or
  -- they give two different messages with the same SHA-256 digest. All hashes have 32 bytes.
  pub verify-binds :
      (r a b : H256) (p q : List H256) (index leaf_size : ℕ)
      → length p ≡ length q
      → IsWide a × IsWide b × All IsWide p × All IsWide q
      → verify x r a p index leaf_size ≡ ok true
      → verify x r b q index leaf_size ≡ ok true
      → (a ≡ b) ⊎ Collision x
  verify-binds r a b p q index leaf_size e w f g =
      let (order, ordered, folded) = verify-fold_proof r a p index leaf_size f in
      let (order', ordered', folded') = verify-fold_proof r b q index leaf_size g in
      let same : order' ≡ order = ok-injective (sym ordered' ∙ ordered) in
      fold_proof-binds a b r p q order e w folded (rw same at folded')
