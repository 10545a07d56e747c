-- ===== src/Network/Gossip.antt =====
-- Two nodes, each of which is the only peer of the other: what one of them writes or broadcasts, the
-- other handles, in order.
pub mod CatchUp
pub mod Spread
pub mod Arrival
use final.Base.{ℕ, zero, suc, List, [], ◌∷◌, map, Run, ok, no_fuel, ◌>>=◌}
use final.Data.{Message}
use final.External.{External}
use final.Network.Worker.{Worker, Sent, written, broadcast, worker_loop}

-- The peer receives the message in both cases.
abbrev pub payload : Sent → Message
payload (written msg) = msg
payload (broadcast msg) = msg

abbrev pub silent : Worker → Worker
silent w = record w { sent = [] }

-- The nodes take turns: the second handles what the first has sent, and the first what the second
-- then sends, until the first has sent nothing.
unfoldable pub exchange : External → ℕ → Worker → Worker → Run (Worker × Worker)
exchange x zero first second = no_fuel
exchange x (suc fuel) first second = elim first.sent [
  | [] ↦ ok (first, second)
  | s ∷ rest ↦ worker_loop x (map payload (s ∷ rest)) second >>= λ second'.
      worker_loop x (map payload second'.sent) (silent first) >>= λ first'.
      exchange x fuel first' (silent second')
]
