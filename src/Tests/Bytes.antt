-- ===== src/Tests/Bytes.antt =====
-- Hashes as numbers, messages as frames, and the peers of a node.
use final.Base.{false, ◌≡◌, [], ◌∷◌, ok, refl, ℕ, List, some, bytes_eq, true, drop}
use final.Hash.{cmp, display_start, display, debug, hex_byte, hex_digit}
use final.Hash.Order.{compare_bytes, cmp-compare_bytes}
use final.Base.HashMap.{insert, retain}
use final.Data.{H256, h256_key}
use final.Network.Server.{
  Stream, Handle, Context, new, put, register, peer_new, connect, write_all_peers, dispatch, Event,
  control, answers, writer_ends, happen, run_events, connect_new_peer, broadcast_message,
  dropped_peer,
}
use final.Network.Server.Delivery.{view_after_all}
use final.Network.Server.Registered.{registered_view, registered_channel}
use final.Hash.Text.{from_hex, from_hex-display}
use final.Tests.Toy.{toy_hash, toy_hash-IsHash}

cmp-compare_bytes_example :
    cmp (toy_hash 3) (toy_hash 7) ≡ compare_bytes (toy_hash 3).bytes (toy_hash 7).bytes
cmp-compare_bytes_example =
    cmp-compare_bytes (toy_hash 3) (toy_hash 7) (toy_hash-IsHash 3) (toy_hash-IsHash 7)

abbrev stream : H256 → Stream H256
stream a = record { addr_of_new = some a; addr_of_register = some a }

-- The server after one peer has connected, and what its second peer then gets: a broadcast; an answer;
-- an answer after it was dropped; and none of what comes after its writer has ended.
abbrev before : List (Event H256 ℕ)
before = control (connect_new_peer (toy_hash 1) (some (stream (toy_hash 1)))) ∷ []

abbrev first_peer : Context H256 ℕ
first_peer = record {
  peers = (toy_hash 1, record { addr = toy_hash 1; write_queue = 0 }) ∷ [];
  queues = record { messages = []; connected = true } ∷ [];
}

abbrev second : Handle H256
second = record { addr = toy_hash 2; write_queue = 1 }

abbrev both : Context H256 ℕ
both = record {
  peers = (toy_hash 1, record { addr = toy_hash 1; write_queue = 0 }) ∷ (toy_hash 2, second) ∷ [];
  queues =
      record { messages = []; connected = true } ∷ record { messages = []; connected = true } ∷ [];
}

abbrev later : List (Event H256 ℕ)
later =
    control (broadcast_message 7)
    ∷ answers second 8
    ∷ control (dropped_peer (toy_hash 2))
    ∷ control (broadcast_message 9)
    ∷ answers second 10
    ∷ writer_ends 1
    ∷ answers second 11
    ∷ []

abbrev last : Context H256 ℕ
last = record {
  peers = (toy_hash 1, record { addr = toy_hash 1; write_queue = 0 }) ∷ [];
  queues =
      record { messages = 7 ∷ 9 ∷ []; connected = true }
      ∷ record { messages = 7 ∷ 8 ∷ 10 ∷ []; connected = false }
      ∷ [];
}

before_runs : run_events before new ≡ ok first_peer
unfolding run_events happen dispatch connect register peer_new new insert
before_runs = refl

second_registers : register (stream (toy_hash 2)) first_peer ≡ some (both, second)
unfolding register peer_new insert bytes_eq
second_registers = refl

later_runs : run_events later both ≡ ok last
unfolding run_events happen dispatch write_all_peers put retain bytes_eq
later_runs = refl

registered_channel_example :
    (toy_hash 2 ≡ toy_hash 2)
    × (some (record { messages = 7 ∷ 8 ∷ 10 ∷ []; connected = false })
        ≡ some (view_after_all 1 later (registered_view (toy_hash 2))).queue)
registered_channel_example =
    registered_channel before later (toy_hash 2) (toy_hash 2) first_peer both last second
      before_runs second_registers later_runs

-- with a precision of 5, the last two bytes
from_hex-display_example : from_hex (display (some 5) (toy_hash 7)) ≡ drop 30 (toy_hash 7).bytes
unfolding display_start
from_hex-display_example = from_hex-display (some 5) (toy_hash 7) (toy_hash-IsHash 7).1

-- "0000..0000"
toy_hash_text :
    debug (toy_hash 7)
    ≡ ok (b'0' ∷ b'0' ∷ b'0' ∷ b'0' ∷ b'.' ∷ b'.' ∷ b'0' ∷ b'0' ∷ b'0' ∷ b'0' ∷ [])
unfolding debug hex_byte hex_digit
toy_hash_text = refl
