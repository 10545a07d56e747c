-- ===== src/Network/Server/Delivery.antt =====
-- What a writer gets: the broadcasts while its peer is registered, and the answers of the network
-- workers, until it ends.
use final.Base.{
  ℕ, suc, ◌≡◌, ◌⊎◌, refl, ap, ◌∙◌, Bool, true, false, Option, none, some, List, [], ◌∷◌, ◌++◌,
  PartialEq, take, length, get_elem?, nat_eq, ok, >>=-eq-ok, ok-injective, unwrap, ◌>>=◌,
  if◌then◌else◌, inl, inr,
}
use mathlib.Core.Path.{subst}
use final.Base.HashMap.{HashMap}
use final.Network.Server.{
  Queue, Handle, Signal, Context, put, write, peer_new, register, write_all_peers, registered_or,
  connect, accept, writer_loop, dispatch, Event, control, answers, writer_ends, happen, run_events,
  connect_new_peer, broadcast_message, get_new_peer, dropped_peer, send_to_peer,
}
use final.Network.Server.Places.{
  get-update_at, get-more, IsKeyOf, key_without, insert-key, retain-key,
}

-- The channel at a place, and the key under which its handle is a peer.
pub record View (A M : Type 0) : Type 0 where
  pub key : Option A
  pub queue : Queue M

module _ {A M : Type 0} ⦃e : PartialEq A⦄ where
  abbrev pub forget : A → View A M → View A M
  forget b v = record v { key = key_without b v.key }

  -- A new stream takes the place of the peer with its address.
  abbrev pub replaced : Option A → Option A → View A M → View A M
  replaced none second v = v
  replaced (some first) none v = v
  replaced (some first) (some b) v = forget b v

  -- A broadcast comes to the channel of a peer.
  abbrev pub heard : Option A → M → Queue M → Queue M
  heard none msg q = q
  heard (some a) msg q = put msg q

  -- The channel `i` after an event.
  unfoldable pub view_after : ℕ → Event A M → View A M → View A M
  unfolding put
  view_after i (control (connect_new_peer addr none)) v = v
  view_after i (control (connect_new_peer addr (some stream))) v =
      replaced stream.addr_of_new stream.addr_of_register v
  view_after i (control (get_new_peer stream)) v =
      replaced stream.addr_of_new stream.addr_of_register v
  view_after i (control (broadcast_message msg)) v = record v { queue = heard v.key msg v.queue }
  view_after i (control (dropped_peer addr)) v = forget addr v
  view_after i (control (send_to_peer msg)) v = v
  view_after i (answers handle msg) v = record v {
    queue = if nat_eq handle.write_queue i then put msg v.queue else v.queue;
  }
  view_after i (writer_ends j) v = record v {
    queue = if nat_eq j i then record (v.queue) { connected = false } else v.queue;
  }

  unfoldable pub view_after_all : ℕ → List (Event A M) → View A M → View A M
  unfolding view_after
  view_after_all i [] v = v
  view_after_all i (event ∷ events) v = view_after_all i events (view_after i event v)

  pub record IsView (i : ℕ) (v : View A M) (c : Context A M) : Type 0 where
    pub at_place : get_elem? c.queues i ≡ some v.queue
    pub keyed : IsKeyOf i v.key c.peers

  -- A broadcast writes once into the channel of a peer.
  write_all-none :
      (i : ℕ) (msg : M) (m : HashMap A (Handle A)) (queues : List (Queue M)) (q : Queue M)
      → IsKeyOf i none m
      → get_elem? queues i ≡ some q
      → get_elem? (write_all_peers msg m queues) i ≡ some q
  unfolding write_all_peers
  write_all-none i msg [] queues q key at_i = at_i
  write_all-none i msg (entry ∷ m) queues q (ne, key) at_i =
      write_all-none i msg m (write entry.1 msg queues) q key (
        get-update_at (put msg) entry.1.write_queue i queues q at_i
        ∙ ap (λ b. some (if b then put msg q else q)) ne)

  write_all-some :
      (i : ℕ) (msg : M) (a : A) (m : HashMap A (Handle A)) (queues : List (Queue M)) (q : Queue M)
      → IsKeyOf i (some a) m
      → get_elem? queues i ≡ some q
      → get_elem? (write_all_peers msg m queues) i ≡ some (put msg q)
  unfolding write_all_peers
  write_all-some i msg a [] queues q key at_i = absurd key
  write_all-some i msg a (entry ∷ m) queues q (inl (same, at_entry, key)) at_i =
      write_all-none i msg m (write entry.1 msg queues) (put msg q) key (
        get-update_at (put msg) entry.1.write_queue i queues q at_i
        ∙ ap (λ b. some (if b then put msg q else q)) at_entry)
  write_all-some i msg a (entry ∷ m) queues q (inr (other, ne, key)) at_i =
      write_all-some i msg a m (write entry.1 msg queues) q key (
        get-update_at (put msg) entry.1.write_queue i queues q at_i
        ∙ ap (λ b. some (if b then put msg q else q)) ne)

  write_all-heard :
      (i : ℕ) (msg : M) (key : Option A) (m : HashMap A (Handle A)) (queues : List (Queue M))
      (q : Queue M)
      → IsKeyOf i key m
      → get_elem? queues i ≡ some q
      → get_elem? (write_all_peers msg m queues) i ≡ some (heard key msg q)
  write_all-heard i msg none m queues q key at_i = write_all-none i msg m queues q key at_i
  write_all-heard i msg (some a) m queues q key at_i = write_all-some i msg a m queues q key at_i

  register-IsView :
      (i : ℕ) (v : View A M) (c : Context A M) (first second : Option A)
      → IsView i v c
      → IsView i
          (replaced first second v)
          (registered_or c
            (register (record { addr_of_new = first; addr_of_register = second }) c)).0
  unfolding register peer_new
  register-IsView i v c none second h = h
  register-IsView i v c (some first) none h = h
  register-IsView i v c (some first) (some b) h =
      let (there, ne) =
        get-more i c.queues (record { messages = []; connected = true } ∷ []) v.queue h.at_place in
      record {
        at_place = there;
        keyed =
            insert-key i v.key b (record { addr = first; write_queue = length c.queues }) c.peers ne
              h.keyed;
      }

  pub accepted :
      (c c' : Context A M) (o : Option (Context A M × Handle A))
      → (unwrap o >>= λ registered. ok registered.0) ≡ ok c'
      → (registered_or c o).0 ≡ c'
  accepted c c' none e = cc e
  accepted c c' (some r) e = ok-injective e

  happen-IsView :
      (i : ℕ) (event : Event A M) (v : View A M) (c c' : Context A M)
      → IsView i v c
      → happen event c ≡ ok c'
      → IsView i (view_after i event v) c'
  unfolding happen dispatch connect accept view_after
  happen-IsView i (control (connect_new_peer addr none)) v c c' h e =
      subst (IsView i v) (ok-injective e) h
  happen-IsView i (control (connect_new_peer addr (some stream))) v c c' h e =
      subst (IsView i (replaced stream.addr_of_new stream.addr_of_register v)) (ok-injective e)
        (register-IsView i v c stream.addr_of_new stream.addr_of_register h)
  happen-IsView i (control (get_new_peer stream)) v c c' h e =
      subst (IsView i (replaced stream.addr_of_new stream.addr_of_register v))
        (accepted c c' (register stream c) e)
        (register-IsView i v c stream.addr_of_new stream.addr_of_register h)
  happen-IsView i (control (broadcast_message msg)) v c c' h e =
      subst (IsView i _) (ok-injective e) (record {
        at_place = write_all-heard i msg v.key c.peers c.queues v.queue h.keyed h.at_place;
        keyed = h.keyed;
      })
  happen-IsView i (control (dropped_peer addr)) v c c' h e =
      subst (IsView i _) (ok-injective e)
        (record { at_place = h.at_place; keyed = retain-key i v.key addr c.peers h.keyed })
  happen-IsView i (control (send_to_peer msg)) v c c' h e = cc e
  happen-IsView i (answers handle msg) v c c' h e = subst (IsView i _) (ok-injective e) (record {
    at_place = get-update_at (put msg) handle.write_queue i c.queues v.queue h.at_place;
    keyed = h.keyed;
  })
  happen-IsView i (writer_ends j) v c c' h e = subst (IsView i _) (ok-injective e) (record {
    at_place = get-update_at (λ q. record q { connected = false }) j i c.queues v.queue h.at_place;
    keyed = h.keyed;
  })

  -- A channel, whose handle is a peer under a key and no other, or under none: after any events that
  -- happen without a panic, it holds what its own view of them gives. A broadcast is put into it while
  -- its handle is a peer, until another stream comes under that key or the peer is dropped; an answer
  -- is put into it when it was written with its handle, whether or not that is a peer; and nothing is
  -- put into it once its writer has ended.
  pub run_events-IsView :
      (i : ℕ) (events : List (Event A M)) (v : View A M) (c c' : Context A M)
      → IsView i v c
      → run_events events c ≡ ok c'
      → IsView i (view_after_all i events v) c'
  unfolding run_events view_after_all
  run_events-IsView i [] v c c' h e = subst (IsView i v) (ok-injective e) h
  run_events-IsView i (event ∷ events) v c c' h e =
      let (mid, one, rest) = >>=-eq-ok (happen event c) _ e in
      run_events-IsView i events (view_after i event v) mid c' (happen-IsView i event v c mid h one)
        rest

-- The writes that succeed before one that fails.
unfoldable pub before_failure : List Bool → ℕ
before_failure [] = 0
before_failure (true ∷ more) = suc (before_failure more)
before_failure (false ∷ more) = 0

-- The writer writes the messages before the first write that fails, and it leaves the control channel
-- as it is or puts one signal into it, that its peer is gone.
writer_loop-take :
    {A M : Type 0} ⦃e : PartialEq A⦄ (a : A) (oks : List Bool) (q : List M)
    (signals : List (Signal A M))
    → ((writer_loop a oks q signals).0 ≡ take (before_failure oks) q)
      × (((writer_loop a oks q signals).1 ≡ signals)
          ⊎ ((writer_loop a oks q signals).1 ≡ signals ++ dropped_peer a ∷ []))
unfolding writer_loop before_failure
writer_loop-take a [] q signals = (refl, inl refl)
writer_loop-take a (true ∷ more) [] signals = (refl, inl refl)
writer_loop-take a (false ∷ more) [] signals = (refl, inl refl)
writer_loop-take a (true ∷ more) (msg ∷ q) signals =
    let ih = writer_loop-take a more q signals in (ap (λ k. msg ∷ k) ih.0, ih.1)
writer_loop-take a (false ∷ more) (msg ∷ q) signals = (refl, inr refl)
