-- ===== src/Merkle/Join.antt =====
-- A round of the loop joins neighbours: the queue that it rotates is the list of pairs.
use mathlib.Core.List.{append_assoc, append-nil}
use native.Mathlib.Omega.{arith}
use final.Base.{
  ap, sym, ◌∙◌, ℕ, zero, suc, ◌+◌, ◌*◌, ◌/◌, ◌≡◌, refl, ap, List, [], ◌∷◌, ◌++◌, length, none, ok,
  length-snoc,
}
use final.External.{External}
use final.Merkle.{
  MerkleTree, tree, present, absent, last_hash, root, concat_and_hash, pad, join_pairs,
}

module _ (x : External) where
  unfoldable pub join : MerkleTree → MerkleTree → MerkleTree
  join left right =
      tree (present left) (present right) (concat_and_hash x (root left) (root right)) none

  unfoldable pub pairs : List MerkleTree → List MerkleTree
  pairs [] = []
  pairs (t ∷ []) = []
  pairs (t ∷ t' ∷ ts) = join t t' ∷ pairs ts

  pub join_pairs-pairs :
      (k : ℕ) (nodes done : List MerkleTree)
      → length nodes ≡ k * 2
      → join_pairs x k (nodes ++ done) ≡ ok (done ++ pairs nodes)
  unfolding join_pairs pairs join
  join_pairs-pairs zero [] done h = rw append-nil
  join_pairs-pairs zero (t ∷ nodes) done h = absurd (omega arith)
  join_pairs-pairs (suc k) [] done h = absurd (omega arith)
  join_pairs-pairs (suc k) (t ∷ []) done h = absurd (omega arith)
  join_pairs-pairs (suc k) (t ∷ t' ∷ nodes) done h =
      rw (append_assoc, join_pairs-pairs k nodes (done ++ join t t' ∷ []) (omega arith))
        (rw append_assoc)

  pub join_pairs-all :
      (nodes : List MerkleTree)
      → length nodes ≡ length nodes / 2 * 2
      → join_pairs x (length nodes / 2) nodes ≡ ok (pairs nodes)
  join_pairs-all nodes even =
      ap (join_pairs x (length nodes / 2)) (sym (append-nil nodes))
      ∙ join_pairs-pairs (length nodes / 2) nodes [] even

  pub length-pairs : (nodes : List MerkleTree) → length (pairs nodes) ≡ length nodes / 2
  unfolding pairs
  length-pairs [] = refl
  length-pairs (t ∷ []) = refl
  length-pairs (t ∷ t' ∷ nodes) = omega (arith, length-pairs nodes)

pub length-pad : (nodes : List MerkleTree) → length (pad nodes) ≡ (length nodes + 1) / 2 * 2
unfolding pad
length-pad [] = refl
length-pad (t ∷ nodes) =
    ground (arith, length-snoc nodes (tree absent absent (last_hash t nodes) none))
