-- ===== src/Tests/Forged.antt =====
-- A message with a chain of two blocks for a node that has the genesis block.
use native.Mathlib.Omega.{arith}
use final.Base.{◌≡◌, ◌<◌, refl, ap, [], ◌∷◌, ok, some, bytes_eq}
use final.Base.HashMap.{get}
use final.Data.{H256, h256_key, State, Block, Message}
use final.Block.{hash, hash_header}
use final.Blockchain.{ico_state, get_block_state, tip}
use final.Blockchain.Genesis.{get-single}
use final.Network.Worker.{Worker, handle_message, find_child}
use final.Network.Worker.Forged.{easiest, OnTop}
use final.Network.Worker.Backwards.{last}
use final.Network.Worker.Forged.Attack.{handle_message_takes_forged}
use final.Tests.Toy.{toy, toy-IsDocumented, toy_hash, toy_block}
use final.Tests.Chain.{genesis, start, toy_hash_ne}
use final.Tests.Node.{node}

-- a root on a parent that nobody has, and a child of it
abbrev root : Block
root = record (toy_block 1 50 77 []) {
  header = record ((toy_block 1 50 77 []).header) { difficulty = easiest };
}

abbrev child : Block
child = record (toy_block 2 51 50 []) {
  header = record ((toy_block 2 51 50 []).header) { difficulty = easiest };
}

short : (h : H256) (b : Block) → get start.blocks h ≡ some b → b.length < 2
unfolding get
short h b e = omega (arith, ap (λ (k : Block). k.length) (get-single (toy_hash 1) h genesis b e).1)

child-OnTop : OnTop toy root child
unfolding hash hash_header
child-OnTop = record { parent = refl; easy = refl; long = omega arith; empty = refl }

handle_message_takes_forged_example :
    (w' : Worker) × (s : State) × (handle_message toy (Message.blocks (root ∷ child ∷ [])) node
      ≡ ok w')
    × (tip toy w'.blockchain ≡ ok (hash toy (last root (child ∷ []))))
    × (ico_state toy ≡ ok s)
    × (get_block_state w'.blockchain (hash toy (last root (child ∷ []))) ≡ some s)
unfolding hash hash_header get bytes_eq find_child
handle_message_takes_forged_example =
    handle_message_takes_forged toy toy-IsDocumented root (child ∷ []) node (refl, tt) refl refl
      refl (child-OnTop, tt)
      (refl, refl, (toy_hash_ne 50 51 (omega arith), tt), (refl, refl, tt, tt)) (omega arith) short
