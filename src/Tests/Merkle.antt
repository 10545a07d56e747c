-- ===== src/Tests/Merkle.antt =====
-- A Merkle tree of three leaves: the last level is padded.
use native.Mathlib.Omega.{arith}
use final.Base.{bytes_eq, refl, List, [], ◌∷◌, ◌≡◌, ◌⊎◌}
use final.Data.{H256, h256_key}
use final.Merkle.{verify, concat_and_hash}
use final.Merkle.Verified.{Proved, proof-verify}
use final.Merkle.Binding.{Collision, verify-binds}
use final.Tests.Toy.{toy, toy_hash, toy-IsDocumented}

abbrev three : List H256
three = toy_hash 1 ∷ toy_hash 2 ∷ toy_hash 3 ∷ []

proof-verify_example : Proved toy three 2 (toy_hash 3)
proof-verify_example = proof-verify toy three 2 (toy_hash 3) refl (omega arith)

-- the path of the leaf 2 of `three`
abbrev path : List H256
path = toy_hash 3 ∷ concat_and_hash toy (toy_hash 1) (toy_hash 2) ∷ []

verify-binds_example : (toy_hash 3 ≡ toy_hash 3) ⊎ Collision toy
unfolding verify concat_and_hash bytes_eq
verify-binds_example =
    verify-binds toy toy-IsDocumented
      (concat_and_hash toy (concat_and_hash toy (toy_hash 1) (toy_hash 2))
        (concat_and_hash toy (toy_hash 3) (toy_hash 3)))
      (toy_hash 3) (toy_hash 3) path path 2 3 refl
      (refl, refl, (refl, (refl, tt)), (refl, (refl, tt))) refl refl
