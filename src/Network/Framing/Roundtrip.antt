-- ===== src/Network/Framing/Roundtrip.antt =====
-- What is written to a peer is read by it.
use native.Mathlib.Omega.{arith}
use mathlib.Core.List.{append_assoc}
use final.Base.{
  ℕ, zero, suc, ◌%◌, ◌^◌, ◌<◌, ◌≡◌, refl, ap, ◌∙◌, none, some, List, [], ◌∷◌, ◌++◌, length, take,
  drop, All, ok,
}
use final.External.{External, IsDocumented}
use final.Hash.{from_be_bytes}
use final.Address.{to_be_bytes}
use final.Network.Framing.{write_frame, write_frames, grow_buffer, read_frame, read_frames}

-- a message whose length fits in 32 bits
abbrev pub IsSmall : List ℕ → Type 0
IsSmall msg = length msg < 2 ^ 32

take_append : (xs ys : List ℕ) → take (length xs) (xs ++ ys) ≡ xs
take_append [] ys = refl
take_append (x ∷ xs) ys = ap (λ k. x ∷ k) (take_append xs ys)

from_be_bytes-to_be_bytes : (n : ℕ) → n < 2 ^ 32 → from_be_bytes 0 (to_be_bytes n) ≡ n
unfolding from_be_bytes to_be_bytes
from_be_bytes-to_be_bytes n h = omega (arith, h)

read_exact-to_be_bytes :
    (x : External) (n : ℕ) (rest : List ℕ)
    → IsDocumented x
    → x.read_exact 4 (to_be_bytes n ++ rest) ≡ some (to_be_bytes n, rest)
unfolding to_be_bytes
read_exact-to_be_bytes x n rest doc = doc.read_exact_all (to_be_bytes n) rest

-- The reader gets one written message, whatever its buffer held before.
read_frame-write_frame :
    (x : External) (buffer msg rest : List ℕ)
    → IsDocumented x
    → IsSmall msg
    → (filled : List ℕ) × (read_frame x buffer (write_frame msg ++ rest) ≡ some (msg, filled, rest))
unfolding read_frame write_frame
read_frame-write_frame x buffer msg rest doc small =
    let n = length msg % 2 ^ 32 in
    let same : n ≡ length msg = omega (arith, small) in
    let head = read_exact-to_be_bytes x n (msg ++ rest) doc in
    let size : from_be_bytes 0 (to_be_bytes n) ≡ length msg =
      from_be_bytes-to_be_bytes n (omega arith) ∙ same in
    let filled = msg ++ drop (length msg) (grow_buffer buffer (length msg)) in
    rw (append_assoc (to_be_bytes n) msg rest) (
      rw
        (
          head,
          read_frame,
          size,
          doc.read_exact_all msg rest,
          size,
          take_append msg (drop (length msg) (grow_buffer buffer (length msg))),
        )
        (filled, refl))

read_frame_short :
    (x : External) (buffer tail : List ℕ)
    → IsDocumented x
    → length tail < 4
    → read_frame x buffer tail ≡ none
unfolding read_frame
read_frame_short x buffer tail doc short = rw (doc.read_exact_eof 4 tail short, read_frame) refl

-- With `read_exact` as documented, the messages that one side writes are the messages that the other side reads, in order, whatever
-- the buffer of the reader holds, and although the stream breaks off within the next length. Each
-- length fits in 32 bits; fuel past the number of messages is enough.
pub read_frames-write_frames :
    (x : External) (fuel : ℕ) (buffer : List ℕ) (msgs : List (List ℕ)) (tail : List ℕ)
    → IsDocumented x
    → All IsSmall msgs
    → length tail < 4
    → length msgs < fuel
    → read_frames x fuel buffer (write_frames msgs ++ tail) ≡ ok msgs
unfolding read_frames write_frames
read_frames-write_frames x zero buffer msgs tail doc small short enough =
    absurd (omega (arith, enough))
read_frames-write_frames x (suc fuel) buffer [] tail doc small short enough =
    rw (read_frame_short x buffer tail doc short, read_frames) refl
read_frames-write_frames x (suc fuel) buffer (msg ∷ msgs) tail doc small short enough =
    let (filled, one) =
      read_frame-write_frame x buffer msg (write_frames msgs ++ tail) doc small.0 in
    let later =
      read_frames-write_frames x fuel filled msgs tail doc small.1 short (omega (arith, enough)) in
    rw (append_assoc (write_frame msg) (write_frames msgs) tail)
      (rw (one, read_frames) (rw later refl))
