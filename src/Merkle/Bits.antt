-- ===== src/Merkle/Bits.antt =====
-- The directions of an index in a tree: from the leaf up, and from the root down.
use native.Mathlib.Omega.{arith}
use final.Base.{
  ℕ, zero, suc, ◌-◌, ◌*◌, ◌/◌, ◌%◌, ◌<◌, ◌≡◌, refl, ap, ◌∙◌, List, [], ◌∷◌, ◌++◌, length, ltb,
  if◌then◌else◌, Bool-cases, inl, inr,
}

-- The ancestor of leaf `i` at height `l`.
unfoldable pub shift : ℕ → ℕ → ℕ
shift zero i = i
shift (suc l) i = shift l i / 2

-- From the leaf up: 0 for a left child, 1 for a right one.
unfoldable pub bits : ℕ → ℕ → List ℕ
bits zero i = []
bits (suc l) i = i % 2 ∷ bits l (i / 2)

unfoldable pub pow2 : ℕ → ℕ
pow2 zero = 1
pow2 (suc k) = pow2 k * 2

-- From the root down, below a root of height `k`.
unfoldable pub turns : ℕ → ℕ → List ℕ
turns zero r = []
turns (suc k) r = if ltb r (pow2 k) then 0 ∷ turns k r else 1 ∷ turns k (r - pow2 k)

pub shift-half : (l i : ℕ) → shift l (i / 2) ≡ shift l i / 2
unfolding shift
shift-half zero i = refl
shift-half (suc l) i = ap (λ k. k / 2) (shift-half l i)

pub bits-suc : (l i : ℕ) → bits (suc l) i ≡ bits l i ++ shift l i % 2 ∷ []
unfolding bits shift
bits-suc zero i = refl
bits-suc (suc l) i =
    ap (λ bs. i % 2 ∷ bs)
      (bits-suc l (i / 2) ∙ ap (λ k. bits l (i / 2) ++ k % 2 ∷ []) (shift-half l i))

pub length-bits : (l i : ℕ) → length (bits l i) ≡ l
unfolding bits
length-bits zero i = refl
length-bits (suc l) i = ap suc (length-bits l (i / 2))

pub pow2-pos : (k : ℕ) → 0 < pow2 k
unfolding pow2
pow2-pos zero = omega arith
pow2-pos (suc k) = omega (arith, pow2-pos k)

pub lt-pow2 : (k : ℕ) → k < pow2 k
unfolding pow2
lt-pow2 zero = omega arith
lt-pow2 (suc k) = omega (arith, lt-pow2 k)

pub turns-suc : (k r : ℕ) → r < pow2 (suc k) → turns (suc k) r ≡ turns k (r / 2) ++ r % 2 ∷ []
unfolding turns pow2
turns-suc zero r h = ground arith
turns-suc (suc k) r h = elim (Bool-cases (ltb r (pow2 k * 2))) [
  | inl left ↦ ground (arith, turns-suc k r)
  | inr right ↦ ground (arith, turns-suc k (r - pow2 k * 2))
]
