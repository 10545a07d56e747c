-- ===== src/Network/Wire.antt =====
-- The threads of network/worker.rs and the bytes that they get: `Handle::write` of network/peer.rs
-- serializes a message, the connection frames it, and a thread takes the payload from the channel.
pub mod Serial
pub mod Sent
use native.Mathlib.Omega.{arith}
use final.Base.{
  ℕ, zero, suc, ◌<◌, ◌≤◌, ◌≡◌, refl, ap, Bool, true, false, Option, none, some, List, [], ◌∷◌, ◌++◌,
  map, drop, length, get_elem?, remove_at, All, if◌then◌else◌, Run, ok, panic, no_fuel, ◌>>=◌,
}
use final.Data.{Message}
use final.External.{External, IsDocumented}
use final.Network.Worker.{Worker, handle_message}
use final.Network.Framing.{write_frames, read_frames}
use final.Network.Framing.Roundtrip.{IsSmall, read_frames-write_frames}

-- The mutex of the chain: usable; poisoned, by a panic of its holder; or kept for ever, by a handler
-- that does not end.
pub data ChainLock : Type 0 where
  usable poisoned kept : ChainLock

-- The threads that wait for a payload, the messages of those that handle one, and what they share.
pub record Threads : Type 0 where
  pub live : ℕ
  pub held : List Message
  pub worker : Worker
  pub chain_lock : ChainLock

-- `start`
unfoldable pub start : ℕ → Worker → Threads
start num_worker w = record { live = num_worker; held = []; worker = w; chain_lock = usable }

-- The messages whose handlers lock the chain.
unfoldable pub locks_chain : Message → Bool
locks_chain (Message.new_block_hashes hashes) = true
locks_chain (Message.get_blocks hashes) = true
locks_chain (Message.blocks blocks) = true
locks_chain _ = false

-- The top of `worker_loop`: a waiting thread takes a payload. One that is no message ends the thread
-- by a panic, before it locks.
unfoldable pub receive : External → List ℕ → ℕ → Threads → Threads
receive x payload live t = elim (x.bincode_deserialize payload) [
  | none ↦ record t { live = live }
  | some msg ↦ record t { live = live; held = t.held ++ msg ∷ [] }
]

-- The match on the message at index `i` of those held, once its locks can be had: the thread waits
-- for a payload again; or the handler panics with the lock of the chain, and leaves `left` behind, and
-- the thread ends; or the handler does not end.
abbrev pub handled : ℕ → Worker → Threads → Run Worker → Threads
handled i left t (ok w) = record t { live = suc t.live; held = remove_at i t.held; worker = w }
handled i left t panic = record t {
  held = remove_at i t.held;
  worker = left;
  chain_lock = poisoned;
}
handled i left t no_fuel = record t { worker = left; chain_lock = kept }

-- A thread that locks the chain: a poisoned mutex ends it by a panic, and for one that is kept it
-- waits.
abbrev pub with_chain : ChainLock → ℕ → Threads → Threads → Threads
with_chain usable i t done = done
with_chain poisoned i t done = record t { held = remove_at i t.held }
with_chain kept i t done = t

abbrev pub handle_held : External → ℕ → Worker → Threads → Option Message → Threads
handle_held x i left t none = t
handle_held x i left t (some msg) =
    let done = handled i left t (handle_message x msg t.worker) in
    if locks_chain msg then with_chain t.chain_lock i t done else done

-- Whose turn it is: a thread takes the next payload of the channel, or the one with the message at an
-- index of those held handles it. What a handler that fails leaves behind is an argument.
pub data Turn : Type 0 where
  takes : Turn
  handles : ℕ → Worker → Turn

-- One of the waiting threads takes the first payload.
abbrev pub take_first : External → List ℕ → List (List ℕ) → Threads → ℕ → Threads × List (List ℕ)
take_first x payload payloads t zero = (t, payload ∷ payloads)
take_first x payload payloads t (suc live) = (receive x payload live t, payloads)

-- A turn, on the threads and the payloads in the channel. Without a payload, or without a thread that
-- waits for one, there is nothing to take.
unfoldable pub turn : External → Turn → Threads → List (List ℕ) → Threads × List (List ℕ)
unfolding receive locks_chain
turn x (handles i left) t payloads = (handle_held x i left t (get_elem? t.held i), payloads)
turn x takes t [] = (t, [])
turn x takes t (payload ∷ payloads) = take_first x payload payloads t t.live

-- `worker_loop` of all threads, in the order in which they get their turns.
unfoldable pub serve : External → List Turn → Threads → List (List ℕ) → Threads × List (List ℕ)
unfolding turn
serve x [] t payloads = (t, payloads)
serve x (a ∷ turns) t payloads = let next = turn x a t payloads in serve x turns next.0 next.1

-- What the bytes of a connection do to a node: the threads, and the payloads that none has taken.
unfoldable pub listen :
    External → ℕ → List ℕ → List ℕ → List Turn → Threads → Run (Threads × List (List ℕ))
unfolding read_frames serve
listen x fuel msg_buffer stream turns t =
    read_frames x fuel msg_buffer stream >>= λ payloads. ok (serve x turns t payloads)

-- The bytes that `Handle::write` and the writer put on a connection for some messages.
unfoldable pub sent_bytes : External → List Message → List ℕ
unfolding write_frames
sent_bytes x msgs = write_frames (map x.bincode_serialize msgs)

-- The turns at which a thread may take a payload.
unfoldable pub takings : List Turn → ℕ
takings [] = 0
takings (takes ∷ turns) = suc (takings turns)
takings (handles i left ∷ turns) = takings turns

module _ (x : External) where
  serve-dead :
      (turns : List Turn) (w : Worker) (payloads : List (List ℕ))
      → serve x turns (start 0 w) payloads ≡ (start 0 w, payloads)
  unfolding serve start
  serve-dead [] w payloads = refl
  serve-dead (takes ∷ turns) w [] = serve-dead turns w []
  serve-dead (takes ∷ turns) w (p ∷ payloads) = serve-dead turns w (p ∷ payloads)
  serve-dead (handles i left ∷ turns) w payloads = serve-dead turns w payloads

  serve-malformed :
      (turns : List Turn) (live : ℕ) (bad more : List (List ℕ)) (w : Worker)
      → All (λ p. x.bincode_deserialize p ≡ none) bad
      → live ≤ length bad
      → live ≤ takings turns
      → serve x turns (start live w) (bad ++ more) ≡ (start 0 w, drop live bad ++ more)
  unfolding serve start takings
  serve-malformed turns zero bad more w all enough often = serve-dead turns w (bad ++ more)
  serve-malformed turns (suc live) [] more w all enough often = absurd (omega (arith, enough))
  serve-malformed [] (suc live) (p ∷ bad) more w all enough often = absurd (omega (arith, often))
  serve-malformed (handles i left ∷ turns) (suc live) (p ∷ bad) more w all enough often =
      serve-malformed turns (suc live) (p ∷ bad) more w all enough often
  serve-malformed (takes ∷ turns) (suc live) (p ∷ bad) more w (first, all) enough often =
      rw (first, receive)
        (serve-malformed turns live bad more w all (omega (arith, enough)) (omega (arith, often)))

  -- With `read_exact` as documented, one connection on which as many payloads arrive as a node has
  -- threads, none of which bincode can read, leaves the node without a thread, in any order of turns
  -- in which a thread may take a payload as many times: what arrives after them is not taken, and
  -- nothing is handled. The length of each payload fits in 32 bits.
  pub listen-malformed :
      (fuel live : ℕ) (buffer tail : List ℕ) (bad more : List (List ℕ)) (turns : List Turn)
      (w : Worker)
      → IsDocumented x
      → All IsSmall (bad ++ more)
      → All (λ p. x.bincode_deserialize p ≡ none) bad
      → live ≤ length bad
      → live ≤ takings turns
      → length tail < 4
      → length (bad ++ more) < fuel
      → listen x fuel buffer (write_frames (bad ++ more) ++ tail) turns (start live w)
        ≡ ok (start 0 w, drop live bad ++ more)
  unfolding listen
  listen-malformed fuel live buffer tail bad more turns w doc small all enough often short fits =
      rw (read_frames-write_frames x fuel buffer (bad ++ more) tail doc small short fits)
        (ap (λ r. ok r) (serve-malformed turns live bad more w all enough often))
