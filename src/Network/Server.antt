-- ===== src/Network/Server.antt =====
-- network/server.rs and network/peer.rs: the peers of a node, and the queues of messages for them.
-- An address and a message are any types; what the system says of a connection is an argument.
pub mod Places
pub mod Delivery
pub mod Registered
use final.Base.{
  ℕ, zero, suc, Bool, true, false, not, Option, none, some, List, [], ◌∷◌, ◌++◌, ◌==◌, PartialEq,
  length, if◌then◌else◌, Run, ok, panic, ◌>>=◌, unwrap,
}
use final.Base.HashMap.{HashMap, insert, retain}

-- A TCP stream: what its two calls of `peer_addr` give, the one of `new` in network/peer.rs and the
-- one of `register`.
pub record Stream (A : Type 0) : Type 0 where
  pub addr_of_new : Option A
  pub addr_of_register : Option A

-- A channel to a writer: what was put into it, and whether its receiver is still there.
pub record Queue (M : Type 0) : Type 0 where
  pub messages : List M
  pub connected : Bool

-- `Handle` of network/peer.rs: its sender is the place of its channel among all of them.
pub record Handle (A : Type 0) : Type 0 where
  pub addr : A
  pub write_queue : ℕ

-- `ControlSignal`: to connect to an address, with the stream if that succeeds; to broadcast; a stream
-- that was accepted; a peer that is gone; and a message to one peer.
pub data Signal (A M : Type 0) : Type 0 where
  connect_new_peer : A → Option (Stream A) → Signal A M
  broadcast_message : M → Signal A M
  get_new_peer : Stream A → Signal A M
  dropped_peer : A → Signal A M
  send_to_peer : M → Signal A M

-- `Context`, and the channels that were made.
pub record Context (A M : Type 0) : Type 0 where
  pub peers : HashMap A (Handle A)
  pub queues : List (Queue M)

-- `send` on a channel: without a receiver the message is dropped.
unfoldable pub put : {M : Type 0} → M → Queue M → Queue M
put msg q = if q.connected then record q { messages = q.messages ++ msg ∷ [] } else q

abbrev pub update_at : {M : Type 0} → (Queue M → Queue M) → ℕ → List (Queue M) → List (Queue M)
update_at f i [] = []
update_at f zero (q ∷ queues) = f q ∷ queues
update_at f (suc i) (q ∷ queues) = q ∷ update_at f i queues

-- `Handle::write` of network/peer.rs
abbrev pub write : {A M : Type 0} → Handle A → M → List (Queue M) → List (Queue M)
write handle msg queues = update_at (put msg) handle.write_queue queues

-- `Handle::addr` of network/peer.rs
abbrev pub addr_of : {A : Type 0} → Handle A → A
addr_of handle = handle.addr

-- `new` of network/peer.rs: a new channel and its handle, or an error where the stream has no address
unfoldable pub peer_new :
    {A M : Type 0} → Option A → List (Queue M) → Option (List (Queue M) × Handle A)
peer_new none queues = none
peer_new (some addr) queues = some (
  queues ++ record { messages = []; connected = true } ∷ [],
  record { addr = addr; write_queue = length queues },
)

module _ {A M : Type 0} ⦃e : PartialEq A⦄ where
  -- `register`: the key of the peer is the second address of the stream. Where there is none, the
  -- handle and the channel are dropped.
  unfoldable pub register : Stream A → Context A M → Option (Context A M × Handle A)
  unfolding peer_new
  register stream c = elim (peer_new stream.addr_of_new c.queues) [
    | none ↦ none
    | some (queues, handle) ↦ elim (stream.addr_of_register) [
      | none ↦ none
      | some addr ↦ some (record { peers = insert c.peers addr handle; queues = queues }, handle)
    ]
  ]

  -- the loop of a broadcast
  unfoldable pub write_all_peers : M → HashMap A (Handle A) → List (Queue M) → List (Queue M)
  write_all_peers msg [] queues = queues
  write_all_peers msg (entry ∷ entries) queues =
      write_all_peers msg entries (write entry.1 msg queues)

  -- `new`
  unfoldable pub new : Context A M
  new = record { peers = []; queues = [] }

  -- the caller's handle, and the peers with it
  abbrev pub registered_or :
      Context A M → Option (Context A M × Handle A) → Context A M × Option (Handle A)
  registered_or c none = (c, none)
  registered_or c (some (c', handle)) = (c', some handle)

  -- `connect`, by the stream if the connection succeeds: the peers, and the handle for the caller
  unfoldable pub connect : A → Option (Stream A) → Context A M → Context A M × Option (Handle A)
  unfolding register
  connect addr none c = (c, none)
  connect addr (some stream) c = registered_or c (register stream c)

  -- `accept`; the caller unwraps
  unfoldable pub accept : Stream A → Context A M → Run (Context A M)
  unfolding register
  accept stream c = unwrap (register stream c) >>= λ registered. ok registered.0

  -- `listener_loop`, while `accept` succeeds: a signal for each stream
  unfoldable pub listener_loop : List (Stream A) → List (Signal A M) → List (Signal A M)
  listener_loop [] control_chan = control_chan
  listener_loop (stream ∷ streams) control_chan =
      listener_loop streams (control_chan ++ get_new_peer stream ∷ [])

  -- `start`, by whether the address can be bound: the signals of the listener, or an error
  unfoldable pub start : Bool → List (Stream A) → Option (List (Signal A M))
  unfolding listener_loop
  start bound streams = if bound then some (listener_loop streams []) else none

  -- The task of `register` that writes, for as many messages as there are outcomes of a write: what it
  -- has written of its queue, and the channel, into which it puts a signal when a write fails.
  unfoldable pub writer_loop :
      A → List Bool → List M → List (Signal A M) → List M × List (Signal A M)
  writer_loop addr [] write_queue control_chan = ([], control_chan)
  writer_loop addr (succeeds ∷ more) [] control_chan = ([], control_chan)
  writer_loop addr (true ∷ more) (msg ∷ write_queue) control_chan =
      let rest = writer_loop addr more write_queue control_chan in (msg ∷ rest.0, rest.1)
  writer_loop addr (false ∷ more) (msg ∷ write_queue) control_chan =
      ([], control_chan ++ dropped_peer addr ∷ [])

  -- `Handle`: what its three functions put into the channel
  unfoldable pub handle_connect : A → Option (Stream A) → List (Signal A M) → List (Signal A M)
  handle_connect addr stream control_chan = control_chan ++ connect_new_peer addr stream ∷ []

  unfoldable pub handle_broadcast : M → List (Signal A M) → List (Signal A M)
  handle_broadcast msg control_chan = control_chan ++ broadcast_message msg ∷ []

  unfoldable pub handle_send : M → List (Signal A M) → List (Signal A M)
  handle_send msg control_chan = control_chan ++ send_to_peer msg ∷ []

  -- A round of `dispatch_control`. A message to one peer is not implemented, and a failure to accept
  -- ends the task, whose result is unwrapped.
  unfoldable pub dispatch : Signal A M → Context A M → Run (Context A M)
  unfolding connect accept write_all_peers
  dispatch (connect_new_peer addr stream) c = ok (connect addr stream c).0
  dispatch (broadcast_message msg) c =
      ok (record c { queues = write_all_peers msg c.peers c.queues })
  dispatch (get_new_peer stream) c = accept stream c
  dispatch (dropped_peer addr) c =
      ok (record c { peers = retain (λ other. not (other == addr)) c.peers })
  dispatch (send_to_peer msg) c = panic

  unfoldable pub dispatch_control : List (Signal A M) → Context A M → Run (Context A M)
  unfolding dispatch
  dispatch_control [] c = ok c
  dispatch_control (ctrl ∷ signals) c = dispatch ctrl c >>= dispatch_control signals

-- What happens to the channels: a round of `dispatch_control`; a network worker writes its answer with
-- the handle of a message; and a writer ends, with the receiver of its channel.
pub data Event (A M : Type 0) : Type 0 where
  control : Signal A M → Event A M
  answers : Handle A → M → Event A M
  writer_ends : ℕ → Event A M

module _ {A M : Type 0} ⦃e : PartialEq A⦄ where
  unfoldable pub happen : Event A M → Context A M → Run (Context A M)
  unfolding dispatch
  happen (control ctrl) c = dispatch ctrl c
  happen (answers handle msg) c = ok (record c { queues = write handle msg c.queues })
  happen (writer_ends i) c =
      ok (record c { queues = update_at (λ q. record q { connected = false }) i c.queues })

  unfoldable pub run_events : List (Event A M) → Context A M → Run (Context A M)
  unfolding happen
  run_events [] c = ok c
  run_events (event ∷ events) c = happen event c >>= run_events events
