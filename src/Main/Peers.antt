-- ===== src/Main/Peers.antt =====
-- main.rs, lines 95 to 127: which of the known peers a node is connected to.
use final.Base.{
  ℕ, zero, suc, ◌≡◌, refl, sym, Bool, true, false, Option, none, some, List, [], ◌∷◌, take, ◌⊎◌,
  Option-cases, inl, inr,
}
use final.Main.{retry, connect_known_peers}

-- The successes among the results of `connect`.
unfoldable pub successes : List Bool → ℕ
successes [] = 0
successes (true ∷ results) = suc (successes results)
successes (false ∷ results) = successes results

-- The peers whose text is an address.
unfoldable pub parsed_peers : {Addr : Type 0} → (List ℕ → Option Addr) → List (List ℕ) → List Addr
parsed_peers parse_addr [] = []
parsed_peers parse_addr (peer ∷ peers) = elim (parse_addr peer) [
  | none ↦ parsed_peers parse_addr peers
  | some addr ↦ addr ∷ parsed_peers parse_addr peers
]

take-nil : {A : Type 0} (n : ℕ) → ◌≡◌ {A = List A} (take n []) []
take-nil zero = refl
take-nil (suc n) = refl

retry-successes :
    (results : List Bool)
    → ((retry results ≡ none) × (successes results ≡ 0))
      ⊎ ((rest : List Bool) × (retry results ≡ some rest)
          × (successes results ≡ suc (successes rest)))
unfolding retry successes
retry-successes [] = inl (refl, refl)
retry-successes (true ∷ results) = inr (results, refl, refl)
retry-successes (false ∷ results) = retry-successes results

module _ {Addr : Type 0} (parse_addr : List ℕ → Option Addr) where
  -- With the results of the calls of `connect` so far, the node is connected to as many peers as
  -- calls have succeeded: the first ones whose text is an address, in the order of the arguments.
  pub connect_known_peers-take :
      (known_peers : List (List ℕ)) (results : List Bool)
      → connect_known_peers parse_addr known_peers results
        ≡ take (successes results) (parsed_peers parse_addr known_peers)
  unfolding connect_known_peers parsed_peers
  connect_known_peers-take [] results = sym (take-nil (successes results))
  connect_known_peers-take (peer ∷ peers) results = elim (Option-cases (parse_addr peer)) [
    | inl malformed ↦
        rw (malformed, connect_known_peers, parsed_peers) (connect_known_peers-take peers results)
    | inr (addr, good) ↦ elim (retry-successes results) [
      | inl (retrying, zero_so_far) ↦
          rw (good, connect_known_peers, parsed_peers) (rw (retrying, zero_so_far) refl)
      | inr (rest, connected, one_more) ↦
          rw (good, connect_known_peers, parsed_peers)
            (rw (connected, one_more) (λ i. addr ∷ connect_known_peers-take peers rest i))
    ]
  ]
