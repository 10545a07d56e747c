-- ===== src/Merkle/Verified.antt =====
-- Completeness of Merkle proofs: what `proof` returns for an index in range passes `verify`.
use native.Mathlib.Omega.{arith}
use final.Base.{
  ℕ, zero, suc, ◌+◌, ◌/◌, ◌%◌, ◌^◌, ◌<◌, ◌≤◌, ◌≡◌, refl, ap, sym, ◌∙◌, List, [], ◌∷◌, ◌++◌, length,
  none, some, true, ok, get_elem?, ==_refl,
}
use final.Data.{H256, h256_key}
use final.External.{External}
use final.Hash.{of_digest}
use final.Merkle.{MerkleTree, root, pad, build, leaves, new, pop, proof, fold_proof, verify}
use final.Merkle.Bits.{shift, shift-half, bits, turns, turns-suc, pow2}
use final.Merkle.Join.{pairs, join_pairs-all, length-pairs, length-pad}
use final.Merkle.Cover.{
  Covers, AllCovers, climb, step_up, leaves-AllCovers, pairs-AllCovers, pad-AllCovers,
}
use final.Merkle.Order.{levels, order_proof-turns}

pop-snoc : (o : ℕ) (os : List ℕ) (a b : ℕ) → ◌≡◌ {A = ℕ × List ℕ} (pop a (os ++ b ∷ [])) (b, a ∷ os)
unfolding pop
pop-snoc o [] a b = refl
pop-snoc o (o' ∷ os) a b = rw (pop-snoc o os o' b)

fold_proof-snoc :
    (x : External) (h s : H256) (p : List H256) (os : List ℕ) (o : ℕ)
    → fold_proof x h (s ∷ p) (os ++ o ∷ []) ≡ fold_proof x (step_up x o h s) p os
unfolding fold_proof step_up
fold_proof-snoc x h s p [] o = refl
fold_proof-snoc x h s p (o' ∷ os) o = rw (pop-snoc o os o' o)

fold_proof-climb :
    (x : External) (l i : ℕ) (h : H256) (p : List H256)
    → length p ≡ l
    → i < pow2 l
    → fold_proof x h p (turns l i) ≡ ok (climb x h p (bits l i))
unfolding fold_proof climb bits pow2
fold_proof-climb x zero i h [] e lt = refl
fold_proof-climb x zero i h (s ∷ p) e lt = absurd (omega arith)
fold_proof-climb x (suc l) i h [] e lt = absurd (omega arith)
fold_proof-climb x (suc l) i h (s ∷ p) e lt =
    rw (turns-suc l i lt, fold_proof-snoc)
      (fold_proof-climb x l (i / 2) (step_up x (i % 2) h s) p (omega arith) (omega arith))

module _ (x : External) (n : ℕ) (leaf : ℕ → H256) where
  -- What the loop builds from a level that covers all leaves.
  record Built (height fuel : ℕ) (nodes : List MerkleTree) : Type 0 where
    result : MerkleTree
    ends : build x fuel nodes ≡ ok result
    covers : Covers x n leaf height 0 result

  build-Built_round :
      (fuel height : ℕ) (t t' : MerkleTree) (ts : List MerkleTree)
      → Built height fuel (pairs x (pad (t ∷ t' ∷ ts)))
      → Built height (suc fuel) (t ∷ t' ∷ ts)
  unfolding build
  build-Built_round fuel height t t' ts b =
      let nodes = pad (t ∷ t' ∷ ts) in
      record {
        result = b.result;
        ends = rw (join_pairs-all x nodes (omega (arith, length-pad (t ∷ t' ∷ ts)))) (b.ends);
        covers = b.covers;
      }

  build-Built :
      (fuel l height : ℕ) (nodes : List MerkleTree)
      → height ≡ levels fuel (length nodes) + l
      → 0 < length nodes
      → length nodes ≤ fuel
      → ((i : ℕ) → i < n → shift l i < length nodes)
      → AllCovers x n leaf l 0 nodes
      → Built height fuel nodes
  unfolding build levels shift
  build-Built fuel l height [] e pos le below cs = absurd (omega arith)
  build-Built zero l height (t ∷ nodes) e pos le below cs = absurd (omega arith)
  build-Built (suc fuel) l height (t ∷ []) e pos le below cs = record {
    result = t;
    ends = refl;
    covers = let h : height ≡ l = omega arith in rw h (cs.0);
  }
  build-Built (suc fuel) l height (t ∷ t' ∷ ts) e pos le below cs =
      let size = length-pairs x (pad (t ∷ t' ∷ ts)) in
      let padded = length-pad (t ∷ t' ∷ ts) in
      let half : length (pairs x (pad (t ∷ t' ∷ ts))) ≡ (length (t ∷ t' ∷ ts) + 1) / 2 =
        omega arith in
      build-Built_round fuel height t t' ts (
        build-Built fuel (suc l) height (pairs x (pad (t ∷ t' ∷ ts))) (rw half (ground arith))
          (omega arith) (omega arith) (λ i lt. omega (arith, below i lt))
          (pairs-AllCovers x n leaf l 0 (pad (t ∷ t' ∷ ts))
            (pad-AllCovers x n leaf l (t ∷ t' ∷ ts) below cs)))

-- the hash of the `i`-th item
leaf_of : List H256 → ℕ → H256
leaf_of hashes i = elim (get_elem? hashes i) [ none ↦ of_digest [] | some h ↦ h ]

leaf_of-eq :
    (hashes : List H256) (i : ℕ) (h : H256) → get_elem? hashes i ≡ some h → leaf_of hashes i ≡ h
unfolding leaf_of
leaf_of-eq hashes i h e = rw (e, leaf_of)

length-leaves : (j : ℕ) (hashes : List H256) → length (leaves j hashes) ≡ length hashes
unfolding leaves
length-leaves j [] = refl
length-leaves j (h ∷ hashes) = ap suc (length-leaves (j + 1) hashes)

get_elem?-lt :
    (hashes : List H256) (i : ℕ) (h : H256) → get_elem? hashes i ≡ some h → i < length hashes
get_elem?-lt [] i h e = cc
get_elem?-lt (h' ∷ hashes) zero h e = omega arith
get_elem?-lt (h' ∷ hashes) (suc i) h e = omega (arith, get_elem?-lt hashes i h e)

abbrev pub height : List H256 → ℕ
height hashes = levels (length hashes) (length hashes)

new-Built :
    (x : External) (hashes : List H256)
    → 0 < length hashes
    → Built x (length hashes) (leaf_of hashes) (height hashes) (length hashes) (leaves 0 hashes)
unfolding shift
new-Built x hashes pos =
    build-Built x (length hashes) (leaf_of hashes) (length hashes) 0 (height hashes)
      (leaves 0 hashes) (rw length-leaves (omega arith)) (rw length-leaves pos)
      (rw length-leaves (omega arith)) (λ i lt. rw length-leaves lt)
      (leaves-AllCovers x (length hashes) (leaf_of hashes) 0 hashes
        (λ k h e. ap (leaf_of hashes) (omega arith) ∙ leaf_of-eq hashes k h e))

shift-zero : (l i : ℕ) → i < pow2 l → shift l i ≡ 0
unfolding shift pow2
shift-zero zero i lt = omega arith
shift-zero (suc l) i lt = sym (shift-half l i) ∙ shift-zero l (i / 2) (omega arith)

-- What the tree over a list gives for one of its items.
pub record Proved (x : External) (hashes : List H256) (i : ℕ) (h : H256) : Type 0 where
  pub tree : MerkleTree
  pub path : List H256
  pub built : new x hashes ≡ ok tree
  pub proved : proof tree i ≡ ok path
  pub size : length path ≡ height hashes
  pub verified : verify x (root tree) h path i (length hashes) ≡ ok true

-- For every non-empty list of hashes that fits in memory and every index of it, the tree is built,
-- the proof of that index is computed, its length is the height of the tree, and it is verified
-- against the root, with the item's hash, its index and the number of leaves.
pub proof-verify :
    (x : External) (hashes : List H256) (i : ℕ) (h : H256)
    → get_elem? hashes i ≡ some h
    → length hashes ≤ 2 ^ 62
    → Proved x hashes i h
unfolding new proof verify
proof-verify x hashes i h e b =
    let lt = get_elem?-lt hashes i h e in
    let built = new-Built x hashes (omega arith) in
    let (order, in_range) = order_proof-turns i (length hashes) lt b in
    let found = built.covers.finds i lt (shift-zero (height hashes) i in_range) [] in
    record {
      tree = built.result;
      path = found.path;
      built = built.ends;
      proved = rw found.adds;
      size = found.size;
      verified =
          rw
            (
              order,
              fold_proof-climb x (height hashes) i h found.path found.size in_range,
              ← leaf_of-eq hashes i h e,
              found.climbs,
            )
            (ap ok (==_refl (root built.result)));
    }
