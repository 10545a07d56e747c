-- ===== src/Merkle.antt =====
-- types/merkle.rs: the tree over a list of hashes, its proofs, and their verification. An item of
-- the data stands for its hash, `T: Hashable`.
mod Bits
mod Order
mod Join
mod Cover
pub mod Verified
pub mod Binding
use final.Base.{
  ℕ, zero, suc, ◌+◌, ◌-◌, ◌/◌, ◌%◌, Bool, true, false, Option, none, some, List, [], ◌∷◌, ◌++◌,
  length, ltb, leb, nat_eq, ◌==◌, ◌||◌, if◌then◌else◌, Run, ok, panic, no_fuel, ◌>>=◌, add_usize,
  mul_usize,
}
use final.Data.{H256, h256_key}
use final.External.{External}
use final.Hash.{of_digest}

-- `struct MerkleTree`; a `Child` is an `Option<Box<MerkleTree>>`.
mutual
  pub data MerkleTree : Type 0 where
    tree : Child → Child → H256 → Option ℕ → MerkleTree

  pub data Child : Type 0 where
    absent : Child
    present : MerkleTree → Child

-- the field `hash`, which `root` returns
unfoldable pub root : MerkleTree → H256
root (tree left right hash index) = hash

unfoldable pub concat_and_hash : External → H256 → H256 → H256
concat_and_hash x left right = of_digest (x.sha256 (left.bytes ++ right.bytes))

-- The leaves, from the index `idx` on.
unfoldable pub leaves : ℕ → List H256 → List MerkleTree
leaves idx [] = []
leaves idx (hash ∷ hashes) = tree absent absent hash (some idx) ∷ leaves (idx + 1) hashes

-- the node whose hash is doubled: the last one
unfoldable pub last_hash : MerkleTree → List MerkleTree → H256
unfolding root
last_hash t [] = root t
last_hash t (t' ∷ ts) = last_hash t' ts

-- An odd level gets a node with the hash of its last node.
unfoldable pub pad : List MerkleTree → List MerkleTree
unfolding last_hash
pad [] = []
pad (t ∷ ts) =
    if nat_eq (length (t ∷ ts) % 2) 0
    then t ∷ ts
    else (t ∷ ts) ++ tree absent absent (last_hash t ts) none ∷ []

-- The `for` loop: `count` times, two nodes leave the front and their parent goes to the back.
unfoldable pub join_pairs : External → ℕ → List MerkleTree → Run (List MerkleTree)
unfolding concat_and_hash root
join_pairs x zero nodes = ok nodes
join_pairs x (suc count) [] = panic
join_pairs x (suc count) (left ∷ []) = panic
join_pairs x (suc count) (left ∷ right ∷ nodes) = join_pairs x count (
    nodes
    ++ tree (present left) (present right) (concat_and_hash x (root left) (root right)) none ∷ [])

-- The `while` loop, and the `pop` after it.
unfoldable pub build : External → ℕ → List MerkleTree → Run MerkleTree
unfolding pad join_pairs
build x fuel [] = panic
build x fuel (t ∷ []) = ok t
build x zero (t ∷ t' ∷ ts) = no_fuel
build x (suc fuel) (t ∷ t' ∷ ts) =
    let nodes = pad (t ∷ t' ∷ ts) in join_pairs x (length nodes / 2) nodes >>= build x fuel

-- A round leaves fewer nodes, so their number is enough fuel.
unfoldable pub new : External → List H256 → Run MerkleTree
unfolding leaves build
new x hashes = build x (length hashes) (leaves 0 hashes)

-- what is pushed for a node, by the two answers of its children
unfoldable pub push_sibling : Bool → Bool → H256 → H256 → List H256 → List H256
push_sibling true _ left right accum = accum ++ right ∷ []
push_sibling false true left right accum = accum ++ left ∷ []
push_sibling false false left right accum = accum

-- a leaf's test
unfoldable pub is_index : Option ℕ → ℕ → Bool
is_index none i = false
is_index (some j) i = nat_eq j i

-- A node with one child panics in `unwrap`; `gen_helper` makes none.
unfoldable pub proof_helper : MerkleTree → List H256 → ℕ → Run (Bool × List H256)
unfolding root push_sibling is_index
proof_helper (tree absent absent hash index) accum i = ok (is_index index i, accum)
proof_helper (tree absent (present right) hash index) accum i = panic
proof_helper (tree (present left) absent hash index) accum i =
    proof_helper left accum i >>= λ _. panic
proof_helper (tree (present left) (present right) hash index) accum i =
    proof_helper left accum i >>= λ in_left. proof_helper right in_left.1 i >>= λ in_right.
    ok (
      in_left.0 || in_right.0,
      push_sibling in_left.0 in_right.0 (root left) (root right) in_right.1,
    )

unfoldable pub proof : MerkleTree → ℕ → Run (List H256)
unfolding proof_helper
proof t index = proof_helper t [] index >>= λ found. ok found.1

-- the doubling loop
unfoldable pub grow : ℕ → ℕ → ℕ → Run ℕ
grow zero high leaf_size = no_fuel
grow (suc fuel) high leaf_size = elim (ltb high leaf_size) [
  | true ↦ mul_usize high 2 >>= λ doubled. grow fuel doubled leaf_size
  | false ↦ ok high
]

-- the binary search, and the directions that it pushes
unfoldable pub search_order : ℕ → ℕ → ℕ → ℕ → Run (List ℕ)
search_order zero index low high = no_fuel
search_order (suc fuel) index low high = elim (nat_eq low high) [
  | true ↦ ok []
  | false ↦ add_usize high low >>= λ sum. elim (leb index (sum / 2)) [
    | true ↦ search_order fuel index low (sum / 2) >>= λ order. ok (0 ∷ order)
    | false ↦ search_order fuel index (sum / 2 + 1) high >>= λ order. ok (1 ∷ order)
  ]
]

-- Enough fuel for every index of a list that memory can hold: `high` starts below it.
unfoldable pub order_proof : ℕ → ℕ → Run (List ℕ)
unfolding grow search_order
order_proof index leaf_size =
    grow (suc leaf_size) 1 leaf_size >>= λ high. search_order (suc high) index 0 (high - 1)

-- `Vec::pop`
unfoldable pub pop : ℕ → List ℕ → ℕ × List ℕ
pop a [] = (a, [])
pop a (b ∷ bs) = let rest = pop b bs in (rest.0, a ∷ rest.1)

-- The loop over the proof; `direction.unwrap()` panics once the order is used up.
unfoldable pub fold_proof : External → H256 → List H256 → List ℕ → Run H256
unfolding concat_and_hash pop
fold_proof x currhash [] order = ok currhash
fold_proof x currhash (sib ∷ proof) [] = panic
fold_proof x currhash (sib ∷ proof) (o ∷ order) =
    let popped = pop o order in
    fold_proof x
      (if nat_eq popped.0 0 then concat_and_hash x currhash sib else concat_and_hash x sib currhash)
      proof popped.1

unfoldable pub verify : External → H256 → H256 → List H256 → ℕ → ℕ → Run Bool
unfolding order_proof fold_proof
verify x root datum proof index leaf_size = order_proof index leaf_size >>= λ order.
    fold_proof x datum proof order >>= λ currhash. ok (currhash == root)
