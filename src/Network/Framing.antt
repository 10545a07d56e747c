-- ===== src/Network/Framing.antt =====
-- network/server.rs, the two tasks of a peer: a message goes out behind its length, and the reader
-- cuts the stream of bytes into messages.
pub mod Roundtrip
use final.Base.{
  ℕ, zero, suc, ◌-◌, ◌%◌, ◌^◌, Option, none, some, List, [], ◌∷◌, ◌++◌, length, take, drop, leb,
  ltb, if◌then◌else◌, Run, ok, no_fuel, ◌>>=◌,
}
use final.External.{External}
use final.Hash.{from_be_bytes}
use final.Address.{to_be_bytes}

-- The writer: the length, `as u32`, and the payload.
unfoldable pub write_frame : List ℕ → List ℕ
write_frame new_msg = to_be_bytes (length new_msg % 2 ^ 32) ++ new_msg

-- What the writer has written after the messages of its queue.
unfoldable pub write_frames : List (List ℕ) → List ℕ
unfolding write_frame
write_frames [] = []
write_frames (msg ∷ msgs) = write_frame msg ++ write_frames msgs

abbrev zeros : ℕ → List ℕ
zeros zero = []
zeros (suc n) = 0 ∷ zeros n

-- `resize`, where the buffer is shorter than the message
unfoldable pub grow_buffer : List ℕ → ℕ → List ℕ
grow_buffer buffer size =
    if ltb (length buffer) size then buffer ++ zeros (size - length buffer) else buffer

-- A round of the reader: the payload, the buffer that it was read into, and the rest; nothing where
-- the loop breaks.
unfoldable pub read_frame : External → List ℕ → List ℕ → Option (List ℕ × List ℕ × List ℕ)
unfolding grow_buffer
read_frame x msg_buffer stream = elim (x.read_exact 4 stream) [
  | none ↦ none
  | some (size_buffer, rest) ↦
      let msg_size = from_be_bytes 0 size_buffer in
      elim (x.read_exact msg_size rest) [
        | none ↦ none
        | some (bytes, rest') ↦
            let filled = bytes ++ drop msg_size (grow_buffer msg_buffer msg_size) in
            some (take msg_size filled, filled, rest')
      ]
]

-- The loop of the reader, until the stream ends: the payloads that it passes on.
unfoldable pub read_frames : External → ℕ → List ℕ → List ℕ → Run (List (List ℕ))
unfolding read_frame
read_frames x zero msg_buffer stream = no_fuel
read_frames x (suc fuel) msg_buffer stream = elim (read_frame x msg_buffer stream) [
  | none ↦ ok []
  | some (payload, buffer, rest) ↦
      read_frames x fuel buffer rest >>= λ payloads. ok (payload ∷ payloads)
]
