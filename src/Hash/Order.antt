-- ===== src/Hash/Order.antt =====
-- The order of types/hash.rs on two halves of 16 bytes is the order of the 32 bytes.
use native.Mathlib.Omega.{arith}
use Prim.Native.Nat.{compare, Ordering}
use final.Base.{
  ℕ, zero, suc, ◌+◌, ◌*◌, ◌≡◌, ◌<◌, ◌≤◌, ◌⊎◌, inl, inr, refl, sym, ◌∙◌, ap, List, [], ◌∷◌, length,
  take, drop, All,
}
use final.Data.{H256}
use final.Hash.{from_be_bytes, lexicographic, cmp}

-- The first byte that differs decides.
unfoldable pub compare_bytes : List ℕ → List ℕ → Ordering
compare_bytes [] _ = Ordering.eq
compare_bytes (a ∷ as') [] = Ordering.eq
compare_bytes (a ∷ as') (b ∷ bs) = lexicographic (compare a b) (compare_bytes as' bs)

-- every item is a byte
abbrev pub AreBytes : List ℕ → Type 0
AreBytes bs = All (λ b. b < 256) bs

-- What stands before decides, if it differs.
from_be_bytes-lt :
    (m n : ℕ) (xs ys : List ℕ)
    → length xs ≡ length ys
    → AreBytes xs
    → AreBytes ys
    → m < n
    → from_be_bytes m xs < from_be_bytes n ys
unfolding from_be_bytes
from_be_bytes-lt m n [] [] e w v lt = lt
from_be_bytes-lt m n [] (y ∷ ys) e w v lt = absurd (omega arith)
from_be_bytes-lt m n (x ∷ xs) [] e w v lt = absurd (omega arith)
from_be_bytes-lt m n (x ∷ xs) (y ∷ ys) e w v lt =
    from_be_bytes-lt (m * 256 + x) (n * 256 + y) xs ys (omega arith) w.1 v.1
      (omega (arith, w.0, v.0))

pub compare-lt : (a b : ℕ) → a < b → compare a b ≡ Ordering.lt
compare-lt a b h = ground arith

compare-gt : (a b : ℕ) → b < a → compare a b ≡ Ordering.gt
compare-gt a b h = ground arith

pub compare_self : (a : ℕ) → compare a a ≡ Ordering.eq
compare_self a = ground arith

three_ways : (a b : ℕ) → (a < b) ⊎ ((a ≡ b) ⊎ (b < a))
three_ways a b = ground arith

-- Numbers of one length compare as their bytes do.
compare-from_be_bytes :
    (m : ℕ) (xs ys : List ℕ)
    → length xs ≡ length ys
    → AreBytes xs
    → AreBytes ys
    → compare (from_be_bytes m xs) (from_be_bytes m ys) ≡ compare_bytes xs ys
unfolding from_be_bytes compare_bytes
compare-from_be_bytes m [] [] e w v = compare_self m
compare-from_be_bytes m [] (y ∷ ys) e w v = absurd (omega arith)
compare-from_be_bytes m (x ∷ xs) [] e w v = absurd (omega arith)
compare-from_be_bytes m (x ∷ xs) (y ∷ ys) e w v = elim (three_ways x y) [
  | inl less ↦
      let prefix : m * 256 + x < m * 256 + y = omega (arith, less) in
      let numbers =
        from_be_bytes-lt (m * 256 + x) (m * 256 + y) xs ys (omega arith) w.1 v.1 prefix in
      rw (compare-lt x y less, compare-lt _ _ numbers) refl
  | inr (inl same) ↦
      rw (same, compare_self y) (compare-from_be_bytes (m * 256 + y) xs ys (omega arith) w.1 v.1)
  | inr (inr more) ↦
      let prefix : m * 256 + y < m * 256 + x = omega (arith, more) in
      let numbers =
        from_be_bytes-lt (m * 256 + y) (m * 256 + x) ys xs (omega arith) v.1 w.1 prefix in
      rw (compare-gt x y more, compare-gt _ _ numbers) refl
]

lexicographic_assoc :
    (a b c : Ordering) → lexicographic (lexicographic a b) c ≡ lexicographic a (lexicographic b c)
lexicographic_assoc Ordering.lt b c = refl
lexicographic_assoc Ordering.eq b c = refl
lexicographic_assoc Ordering.gt b c = refl

-- The comparison of two lists is that of their first parts, and then of the rest.
compare_bytes-take :
    (n : ℕ) (xs ys : List ℕ)
    → length xs ≡ length ys
    → lexicographic (compare_bytes (take n xs) (take n ys)) (compare_bytes (drop n xs) (drop n ys))
      ≡ compare_bytes xs ys
unfolding compare_bytes
compare_bytes-take zero xs ys e = refl
compare_bytes-take (suc n) [] [] e = refl
compare_bytes-take (suc n) [] (y ∷ ys) e = absurd (omega arith)
compare_bytes-take (suc n) (x ∷ xs) [] e = absurd (omega arith)
compare_bytes-take (suc n) (x ∷ xs) (y ∷ ys) e =
    lexicographic_assoc (compare x y) _ _
    ∙ ap (lexicographic (compare x y)) (compare_bytes-take n xs ys (omega arith))

length-take_exact : (n : ℕ) (xs : List ℕ) → n ≤ length xs → length (take n xs) ≡ n
length-take_exact zero xs h = refl
length-take_exact (suc n) [] h = omega arith
length-take_exact (suc n) (x ∷ xs) h = omega (arith, length-take_exact n xs (omega arith))

length-drop : (n : ℕ) (xs : List ℕ) → n ≤ length xs → length (drop n xs) + n ≡ length xs
length-drop zero xs h = omega arith
length-drop (suc n) [] h = omega arith
length-drop (suc n) (x ∷ xs) h = omega (arith, length-drop n xs (omega arith))

take_all : (n : ℕ) (xs : List ℕ) → length xs ≡ n → take n xs ≡ xs
take_all zero [] h = refl
take_all zero (x ∷ xs) h = absurd (omega arith)
take_all (suc n) [] h = absurd (omega arith)
take_all (suc n) (x ∷ xs) h = ap (λ k. x ∷ k) (take_all n xs (omega arith))

AreBytes-take : (n : ℕ) (xs : List ℕ) → AreBytes xs → AreBytes (take n xs)
AreBytes-take zero xs w = tt
AreBytes-take (suc n) [] w = tt
AreBytes-take (suc n) (x ∷ xs) w = (w.0, AreBytes-take n xs w.1)

AreBytes-drop : (n : ℕ) (xs : List ℕ) → AreBytes xs → AreBytes (drop n xs)
AreBytes-drop zero xs w = w
AreBytes-drop (suc n) [] w = tt
AreBytes-drop (suc n) (x ∷ xs) w = AreBytes-drop n xs w.1

-- A hash is 32 bytes.
abbrev pub IsHash : H256 → Type 0
IsHash h = (length h.bytes ≡ 32) × AreBytes h.bytes

-- The two halves of 16 bytes, each read as one big-endian number, compare two hashes as their bytes
-- do from left to right.
pub cmp-compare_bytes : (a b : H256) → IsHash a → IsHash b → cmp a b ≡ compare_bytes a.bytes b.bytes
unfolding cmp
cmp-compare_bytes a b (la, wa) (lb, wb) =
    let high =
      compare-from_be_bytes 0 (take 16 a.bytes) (take 16 b.bytes)
        (length-take_exact 16 a.bytes (omega arith)
          ∙ sym (length-take_exact 16 b.bytes (omega arith)))
        (AreBytes-take 16 a.bytes wa) (AreBytes-take 16 b.bytes wb) in
    let low =
      compare-from_be_bytes 0 (drop 16 a.bytes) (drop 16 b.bytes)
        (omega (arith, length-drop 16 a.bytes (omega arith), length-drop 16 b.bytes (omega arith)))
        (AreBytes-drop 16 a.bytes wa) (AreBytes-drop 16 b.bytes wb) in
    rw
      (
        take_all 16 (drop 16 a.bytes) (omega (arith, length-drop 16 a.bytes (omega arith))),
        take_all 16 (drop 16 b.bytes) (omega (arith, length-drop 16 b.bytes (omega arith))),
        high,
        low,
      )
      (compare_bytes-take 16 a.bytes b.bytes (la ∙ sym lb))
