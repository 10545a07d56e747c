-- ===== src/Merkle/Cover.antt =====
-- What a proof looks like at each node: a node at height `l` and place `j` proves the leaves whose
-- ancestor at that height is the `j`-th.
use mathlib.Core.List.{append_assoc, append-nil}
use native.Mathlib.Omega.{arith}
use native.Mathlib.Nat.{add-zero}
use final.Base.{
  ℕ, suc, ◌+◌, ◌*◌, ◌/◌, ◌%◌, ◌<◌, ◌≡◌, ◌≢◌, refl, ap, sym, ◌∙◌, List, [], ◌∷◌, ◌++◌, length,
  nat_eq, Bool-cases, inl, inr, none, some, true, false, ok, length-snoc, if◌then◌else◌, get_elem?,
  ◌⊎◌,
}
use final.Data.{H256}
use final.External.{External}
use final.Merkle.{
  MerkleTree, tree, absent, last_hash, root, concat_and_hash, pad, proof_helper, leaves,
}
use final.Merkle.Bits.{shift, bits, bits-suc, length-bits}
use final.Merkle.Join.{join, pairs}

-- One step up: the sibling `s` of a node with hash `h`.
unfoldable pub step_up : External → ℕ → H256 → H256 → H256
step_up x o h s = if nat_eq o 0 then concat_and_hash x h s else concat_and_hash x s h

unfoldable pub climb : External → H256 → List H256 → List ℕ → H256
climb x h [] os = h
climb x h (s ∷ p) [] = h
climb x h (s ∷ p) (o ∷ os) = climb x (step_up x o h s) p os

pub climb-snoc :
    (x : External) (h s : H256) (o : ℕ) (p : List H256) (os : List ℕ)
    → length p ≡ length os
    → climb x h (p ++ s ∷ []) (os ++ o ∷ []) ≡ step_up x o (climb x h p os) s
unfolding climb
climb-snoc x h s o [] [] e = refl
climb-snoc x h s o [] (o' ∷ os) e = absurd (omega arith)
climb-snoc x h s o (s' ∷ p) [] e = absurd (omega arith)
climb-snoc x h s o (s' ∷ p) (o' ∷ os) e = climb-snoc x (step_up x o' h s') s o p os (omega arith)

step_up-left : (x : External) (o : ℕ) (h s : H256) → o ≡ 0 → step_up x o h s ≡ concat_and_hash x h s
unfolding step_up
step_up-left x o h s e = rw e

step_up-right :
    (x : External) (o : ℕ) (h s : H256) → o ≡ 1 → step_up x o h s ≡ concat_and_hash x s h
unfolding step_up
step_up-right x o h s e = rw e

half-cases : (s j : ℕ) → s / 2 ≡ j → (s ≡ j * 2) ⊎ (s ≡ j * 2 + 1)
half-cases s j e = grind arith

regroup : (j : ℕ) → (j + 1) * 2 ≡ j * 2 + 1 + 1
regroup j = omega arith

shuffle : (j k : ℕ) → j + 1 + k ≡ j + suc k
shuffle j k = omega arith

module _ (x : External) (n : ℕ) (leaf : ℕ → H256) where
  -- The proof that a node adds for leaf `i` to what stands in `accum`.
  pub record Proves (l i : ℕ) (t : MerkleTree) (accum : List H256) : Type 0 where
    pub path : List H256
    pub size : length path ≡ l
    pub adds : proof_helper t accum i ≡ ok (true, accum ++ path)
    pub climbs : climb x (leaf i) path (bits l i) ≡ root t

  pub record Covers (l j : ℕ) (t : MerkleTree) : Type 0 where
    pub misses :
        (i : ℕ) → shift l i ≢ j → (accum : List H256) → proof_helper t accum i ≡ ok (false, accum)
    pub finds : (i : ℕ) → i < n → shift l i ≡ j → (accum : List H256) → Proves l i t accum

  abbrev pub AllCovers : ℕ → ℕ → List MerkleTree → Type 0
  AllCovers l j [] = Unit
  AllCovers l j (t ∷ ts) = Covers l j t × AllCovers l (j + 1) ts

  leaf-Covers : (j : ℕ) → Covers 0 j (tree absent absent (leaf j) (some j))
  unfolding proof_helper shift bits climb root
  leaf-Covers j = record {
    misses = λ i ne accum. ground arith;
    finds = λ i lt e accum. record {
      path = [];
      size = refl;
      adds = rw append-nil (ground arith);
      climbs = ap leaf e;
    };
  }

  pub leaves-AllCovers :
      (j : ℕ) (hashes : List H256)
      → ((k : ℕ) (h : H256) → get_elem? hashes k ≡ some h → leaf (j + k) ≡ h)
      → AllCovers 0 j (leaves j hashes)
  unfolding leaves
  leaves-AllCovers j [] same = tt
  leaves-AllCovers j (h ∷ hashes) same = (
    rw (sym (same 0 h refl) ∙ ap leaf (add-zero j)) (leaf-Covers j),
    leaves-AllCovers (j + 1) hashes (λ k h' e. ap leaf (omega arith) ∙ same (suc k) h' e),
  )

  -- A padding node proves nothing: it stands past the last leaf.
  padding-Covers :
      (l j : ℕ) (h : H256)
      → ((i : ℕ) → i < n → shift l i < j)
      → Covers l j (tree absent absent h none)
  unfolding proof_helper
  padding-Covers l j h below = record {
    misses = λ i ne accum. refl;
    finds = λ i lt e accum. absurd (omega (arith, below i lt));
  }

  -- Below a left child, the sibling on the right is pushed.
  join-left :
      (l i j : ℕ) (a b : MerkleTree) (accum : List H256)
      → shift l i ≡ j * 2
      → Proves l i a accum
      → Covers l (j * 2 + 1) b
      → Proves (suc l) i (join x a b) accum
  unfolding join proof_helper root
  join-left l i j a b accum e proves right = record {
    path = proves.path ++ root b ∷ [];
    size = rw (length-snoc, proves.size);
    adds =
        rw (proves.adds, right.misses i (omega arith) (accum ++ proves.path))
          (ap (λ p. ok (true, p)) (append_assoc accum proves.path (root b ∷ [])));
    climbs =
        rw
          (
            bits-suc,
            climb-snoc x (leaf i) (root b) (shift l i % 2) proves.path (bits l i)
                (proves.size ∙ sym (length-bits l i)),
            proves.climbs,
          )
          (step_up-left x (shift l i % 2) (root a) (root b) (omega arith));
  }

  -- Below a right child, the sibling on the left is pushed.
  join-right :
      (l i j : ℕ) (a b : MerkleTree) (accum : List H256)
      → shift l i ≡ j * 2 + 1
      → Covers l (j * 2) a
      → Proves l i b accum
      → Proves (suc l) i (join x a b) accum
  unfolding join proof_helper root
  join-right l i j a b accum e left proves = record {
    path = proves.path ++ root a ∷ [];
    size = rw (length-snoc, proves.size);
    adds =
        rw (left.misses i (omega arith) accum, proves.adds)
          (ap (λ p. ok (true, p)) (append_assoc accum proves.path (root a ∷ [])));
    climbs =
        rw
          (
            bits-suc,
            climb-snoc x (leaf i) (root a) (shift l i % 2) proves.path (bits l i)
                (proves.size ∙ sym (length-bits l i)),
            proves.climbs,
          )
          (step_up-right x (shift l i % 2) (root b) (root a) (omega arith));
  }

  join-Covers :
      (l j : ℕ) (a b : MerkleTree)
      → Covers l (j * 2) a
      → Covers l (j * 2 + 1) b
      → Covers (suc l) j (join x a b)
  unfolding join proof_helper shift
  join-Covers l j a b left right = record {
    misses =
        λ i ne accum. rw (left.misses i (omega arith) accum, right.misses i (omega arith) accum);
    finds = λ i lt e accum. elim (half-cases (shift l i) j e) [
      | inl even ↦ join-left l i j a b accum even (left.finds i lt even accum) right
      | inr odd ↦ join-right l i j a b accum odd left (right.finds i lt odd accum)
    ];
  }

  pub pairs-AllCovers :
      (l j : ℕ) (nodes : List MerkleTree)
      → AllCovers l (j * 2) nodes
      → AllCovers (suc l) j (pairs x nodes)
  unfolding pairs
  pairs-AllCovers l j [] c = tt
  pairs-AllCovers l j (t ∷ []) c = tt
  pairs-AllCovers l j (t ∷ t' ∷ nodes) (c, (c', cs)) =
      (join-Covers l j t t' c c', pairs-AllCovers l (j + 1) nodes (rw (regroup j) cs))

  snoc-AllCovers :
      (l j : ℕ) (nodes : List MerkleTree) (t : MerkleTree)
      → AllCovers l j nodes
      → Covers l (j + length nodes) t
      → AllCovers l j (nodes ++ t ∷ [])
  snoc-AllCovers l j [] t cs c = (rw (← add-zero j) c, tt)
  snoc-AllCovers l j (t' ∷ nodes) t (c', cs) c =
      (c', snoc-AllCovers l (j + 1) nodes t cs (rw (shuffle j (length nodes)) c))

  pub pad-AllCovers :
      (l : ℕ) (nodes : List MerkleTree)
      → ((i : ℕ) → i < n → shift l i < length nodes)
      → AllCovers l 0 nodes
      → AllCovers l 0 (pad nodes)
  unfolding pad
  pad-AllCovers l [] below cs = cs
  pad-AllCovers l (t ∷ nodes) below cs = elim (Bool-cases (nat_eq (length (t ∷ nodes) % 2) 0)) [
    | inl even ↦ rw even cs
    | inr odd ↦ rw odd (
        snoc-AllCovers l 0 (t ∷ nodes) (tree absent absent (last_hash t nodes) none) cs (
          padding-Covers l (0 + length (t ∷ nodes)) (last_hash t nodes)
            (λ i lt. omega (arith, below i lt))))
  ]
