-- ===== src/Tests/Wire.antt =====
-- A node whose peer sends a ping and a pong, or payloads that are no messages.
use native.Mathlib.Omega.{arith}
use final.Base.{◌≡◌, refl, List, [], ◌∷◌, ◌++◌, ok, ℕ}
use final.Data.{Message}
use final.Network.Framing.{write_frames}
use final.Network.Wire.{Turn, takes, handles, start, takings, listen, listen-malformed}
use final.Tests.Toy.{toy, toy-IsDocumented}
use final.Tests.Node.{node}

abbrev msgs : List Message
msgs = Message.ping (7 ∷ []) ∷ Message.pong (8 ∷ []) ∷ []

-- Both threads take a message, and the one with the pong comes first.
abbrev turns : List Turn
turns = takes ∷ takes ∷ takes ∷ handles 1 node ∷ handles 0 node ∷ []

-- two payloads of no kind, and then a ping
abbrev bad : List (List ℕ)
bad = (5 ∷ []) ∷ (6 ∷ 7 ∷ []) ∷ []

listen-malformed_example :
    listen toy 4 [] (write_frames (bad ++ (0 ∷ 7 ∷ []) ∷ []) ++ []) turns (start 2 node)
    ≡ ok (start 0 node, (0 ∷ 7 ∷ []) ∷ [])
unfolding takings
listen-malformed_example =
    listen-malformed toy 4 2 [] [] bad ((0 ∷ 7 ∷ []) ∷ []) turns node toy-IsDocumented
      (omega arith, (omega arith, (omega arith, tt))) (refl, (refl, tt)) (omega arith) (omega arith)
      (omega arith) (omega arith)
