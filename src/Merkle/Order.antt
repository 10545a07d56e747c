-- ===== src/Merkle/Order.antt =====
-- `order_proof` computes the directions from the root down.
use native.Mathlib.Omega.{arith}
use final.Base.{
  ℕ, zero, suc, ◌+◌, ◌-◌, ◌*◌, ◌/◌, ◌^◌, ◌<◌, ◌≤◌, ◌≡◌, refl, ltb, if◌then◌else◌, Bool-cases, inl,
  inr, ok, ◌>>=◌,
}
use final.Merkle.{grow, search_order, order_proof}
use final.Merkle.Bits.{pow2, turns, pow2-pos, lt-pow2}

-- The rounds of the loop that builds a tree over `n` leaves.
unfoldable pub levels : ℕ → ℕ → ℕ
levels zero n = 0
levels (suc fuel) n = if ltb 1 n then suc (levels fuel ((n + 1) / 2)) else 0

grow-double :
    (fuel high n : ℕ)
    → n ≤ 2 ^ 63
    → grow fuel (high * 2) n ≡ (grow fuel high ((n + 1) / 2) >>= λ h. ok (h * 2))
unfolding grow
grow-double zero high n b = refl
grow-double (suc fuel) high n b = ground (arith, grow-double fuel (high * 2) n)

grow-levels :
    (k fuel n : ℕ) → n ≤ 2 ^ 63 → n ≤ k → n < fuel → grow fuel 1 n ≡ ok (pow2 (levels k n))
unfolding grow levels pow2
grow-levels k zero n b le lt = absurd (omega arith)
grow-levels zero (suc fuel) n b le lt = ground arith
grow-levels (suc k) (suc fuel) n b le lt =
    ground (arith, grow-double fuel 1 n, grow-levels k fuel ((n + 1) / 2))

search_order-turns :
    (k fuel r index low high : ℕ)
    → k < fuel
    → index ≡ low + r
    → suc high ≡ low + pow2 k
    → index ≤ high
    → high < 2 ^ 63
    → search_order fuel index low high ≡ ok (turns k r)
unfolding search_order turns pow2
search_order-turns k zero r index low high f i e hi b = absurd (omega arith)
search_order-turns zero (suc fuel) r index low high f i e hi b = ground arith
search_order-turns (suc k) (suc fuel) r index low high f i e hi b = ground (
  arith,
  pow2-pos k,
  search_order-turns k fuel r index low (low + pow2 k - 1),
  search_order-turns k fuel (r - pow2 k) index (low + pow2 k) high,
)

le-pow2-levels : (k n : ℕ) → n ≤ k → n ≤ pow2 (levels k n)
unfolding levels pow2
le-pow2-levels zero n h = omega arith
le-pow2-levels (suc k) n h = ground (arith, le-pow2-levels k ((n + 1) / 2))

levels-one : (k n : ℕ) → n ≤ 1 → pow2 (levels k n) ≡ 1
unfolding levels pow2
levels-one zero n h = refl
levels-one (suc k) n h = ground arith

pow2-levels-le : (k n : ℕ) → n ≤ k → 1 < n → pow2 (levels k n) + 2 ≤ n * 2
unfolding levels pow2
pow2-levels-le zero n h m = absurd (omega arith)
pow2-levels-le (suc k) n h m = elim (Bool-cases (ltb 1 ((n + 1) / 2))) [
  | inl more ↦ ground (arith, pow2-levels-le k ((n + 1) / 2))
  | inr last ↦ ground (arith, levels-one k ((n + 1) / 2))
]

pow2-levels-lt : (n : ℕ) → n ≤ 2 ^ 62 → pow2 (levels n n) - 1 < 2 ^ 63
pow2-levels-lt n b = elim (Bool-cases (ltb 1 n)) [
  | inl more ↦ ground (arith, pow2-levels-le n n)
  | inr last ↦ ground (arith, levels-one n n)
]

-- For an index in range the order is that of the turns on the way down to it.
pub order_proof-turns :
    (index n : ℕ)
    → index < n
    → n ≤ 2 ^ 62
    → (order_proof index n ≡ ok (turns (levels n n) index)) × (index < pow2 (levels n n))
unfolding order_proof
order_proof-turns index n lt b = (
  rw (grow-levels n (suc n) n (omega arith) (omega arith) (omega arith)) (
      search_order-turns (levels n n) (suc (pow2 (levels n n))) index index 0
        (pow2 (levels n n) - 1) (omega (arith, lt-pow2 (levels n n))) (omega arith)
        (omega (arith, pow2-pos (levels n n)))
        (omega (arith, le-pow2-levels n n, pow2-pos (levels n n))) (pow2-levels-lt n b)),
  omega (arith, le-pow2-levels n n),
)
