-- ===== src/Network/Server/Registered.antt =====
-- The channel of a peer from its registration on.
use native.Mathlib.Omega.{arith}
use final.Base.{
  ℕ, zero, suc, ◌<◌, ◌≡◌, refl, sym, ◌∙◌, Bool, true, false, not, Option, none, some, List, [], ◌∷◌,
  ◌++◌, ◌==◌, PartialEq, All, length, length-snoc, get_elem?, nat_eq, ok, >>=-eq-ok, ok-injective,
  some_inj, Bool-cases, inl, inr,
}
use mathlib.Core.Path.{subst}
use final.Base.HashMap.{HashMap, insert, retain}
use final.Network.Server.{
  Queue, Handle, Context, new, put, update_at, write, peer_new, register, write_all_peers,
  registered_or, connect, accept, dispatch, Event, control, answers, writer_ends, happen,
  run_events, connect_new_peer, broadcast_message, get_new_peer, dropped_peer, send_to_peer,
}
use final.Network.Server.Places.{IsKeyOf}
use final.Network.Server.Delivery.{View, IsView, view_after_all, run_events-IsView, accepted}

module _ {A : Type 0} ⦃e : PartialEq A⦄ where
  -- The handles of the peers are of channels that were made.
  abbrev IsWithin : ℕ → HashMap A (Handle A) → Type 0
  IsWithin n m = All (λ entry. entry.1.write_queue < n) m

  IsWithin-more : (n : ℕ) (m : HashMap A (Handle A)) → IsWithin n m → IsWithin (suc n) m
  IsWithin-more n [] all = tt
  IsWithin-more n (entry ∷ m) (lt, all) = (omega (arith, lt), IsWithin-more n m all)

  IsWithin-insert :
      (n : ℕ) (b : A) (h : Handle A) (m : HashMap A (Handle A))
      → h.write_queue < n
      → IsWithin n m
      → IsWithin n (insert m b h)
  unfolding insert
  IsWithin-insert n b h [] lt all = (lt, tt)
  IsWithin-insert n b h (entry ∷ m) lt (first, all) = elim (Bool-cases (entry.0 == b)) [
    | inl same ↦ rw same (lt, all)
    | inr other ↦ rw other (first, IsWithin-insert n b h m lt all)
  ]

  IsWithin-retain :
      (n : ℕ) (keep : A → Bool) (m : HashMap A (Handle A))
      → IsWithin n m
      → IsWithin n (retain keep m)
  unfolding retain
  IsWithin-retain n keep [] all = tt
  IsWithin-retain n keep (entry ∷ m) (first, all) = elim (Bool-cases (keep entry.0)) [
    | inl kept ↦ rw kept (first, IsWithin-retain n keep m all)
    | inr gone ↦ rw gone (IsWithin-retain n keep m all)
  ]

  key-none : (n : ℕ) (m : HashMap A (Handle A)) → IsWithin n m → IsKeyOf n none m
  key-none n [] all = tt
  key-none n (entry ∷ m) (lt, all) = (ground (arith, lt), key-none n m all)

  key-insert :
      (n : ℕ) (b : A) (h : Handle A) (m : HashMap A (Handle A))
      → nat_eq h.write_queue n ≡ true
      → IsKeyOf n none m
      → IsKeyOf n (some b) (insert m b h)
  unfolding insert
  key-insert n b h [] at_n key = inl (refl, at_n, tt)
  key-insert n b h (entry ∷ m) at_n (first, key) = elim (Bool-cases (entry.0 == b)) [
    | inl same ↦ rw same (inl (refl, at_n, key))
    | inr other ↦ rw other (inr (other, first, key-insert n b h m at_n key))
  ]

module _ {M : Type 0} where
  length-update_at :
      (f : Queue M → Queue M) (i : ℕ) (queues : List (Queue M))
      → length (update_at f i queues) ≡ length queues
  length-update_at f i [] = refl
  length-update_at f zero (q ∷ queues) = refl
  length-update_at f (suc i) (q ∷ queues) = omega (arith, length-update_at f i queues)

  get-last :
      (queues : List (Queue M)) (q : Queue M)
      → get_elem? (queues ++ q ∷ []) (length queues) ≡ some q
  get-last [] q = refl
  get-last (p ∷ queues) q = get-last queues q

module _ {A M : Type 0} ⦃e : PartialEq A⦄ where
  length-write_all :
      (msg : M) (m : HashMap A (Handle A)) (queues : List (Queue M))
      → length (write_all_peers msg m queues) ≡ length queues
  unfolding write_all_peers
  length-write_all msg [] queues = refl
  length-write_all msg (entry ∷ m) queues =
      length-write_all msg m (write entry.1 msg queues)
      ∙ length-update_at (put msg) entry.1.write_queue queues

  abbrev IsMade : Context A M → Type 0
  IsMade c = IsWithin (length c.queues) c.peers

  register-IsMade :
      (c : Context A M) (first second : Option A)
      → IsMade c
      → IsMade
          (registered_or c
            (register (record { addr_of_new = first; addr_of_register = second }) c)).0
  unfolding register peer_new
  register-IsMade c none second made = made
  register-IsMade c (some first) none made = made
  register-IsMade c (some first) (some b) made =
      let q : Queue M = record { messages = []; connected = true } in
      let h : Handle A = record { addr = first; write_queue = length c.queues } in
      subst (λ n. IsWithin n (insert c.peers b h)) (sym (length-snoc c.queues q))
        (IsWithin-insert (suc (length c.queues)) b h c.peers (omega arith)
          (IsWithin-more (length c.queues) c.peers made))

  happen-IsMade :
      (event : Event A M) (c c' : Context A M) → IsMade c → happen event c ≡ ok c' → IsMade c'
  unfolding happen dispatch connect accept
  happen-IsMade (control (connect_new_peer addr none)) c c' made e =
      subst IsMade (ok-injective e) made
  happen-IsMade (control (connect_new_peer addr (some stream))) c c' made e =
      subst IsMade (ok-injective e)
        (register-IsMade c stream.addr_of_new stream.addr_of_register made)
  happen-IsMade (control (get_new_peer stream)) c c' made e =
      subst IsMade (accepted c c' (register stream c) e)
        (register-IsMade c stream.addr_of_new stream.addr_of_register made)
  happen-IsMade (control (broadcast_message msg)) c c' made e =
      subst IsMade (ok-injective e)
        (subst (λ n. IsWithin n c.peers) (sym (length-write_all msg c.peers c.queues)) made)
  happen-IsMade (control (dropped_peer addr)) c c' made e =
      subst IsMade (ok-injective e)
        (IsWithin-retain (length c.queues) (λ other. not (other == addr)) c.peers made)
  happen-IsMade (control (send_to_peer msg)) c c' made e = cc e
  happen-IsMade (answers handle msg) c c' made e = subst IsMade (ok-injective e) (
      subst (λ n. IsWithin n c.peers) (sym (length-update_at (put msg) handle.write_queue c.queues))
        made)
  happen-IsMade (writer_ends i) c c' made e = subst IsMade (ok-injective e) (
      subst (λ n. IsWithin n c.peers)
        (sym (length-update_at (λ q. record q { connected = false }) i c.queues)) made)

  run_events-IsMade :
      (events : List (Event A M)) (c c' : Context A M)
      → IsMade c
      → run_events events c ≡ ok c'
      → IsMade c'
  unfolding run_events
  run_events-IsMade [] c c' made e = subst IsMade (ok-injective e) made
  run_events-IsMade (event ∷ events) c c' made e =
      let (mid, one, rest) = >>=-eq-ok (happen event c) _ e in
      run_events-IsMade events mid c' (happen-IsMade event c mid made one) rest

  -- A new peer, under the address `b` and with an empty channel.
  abbrev pub registered_view : A → View A M
  registered_view b = record { key = some b; queue = record { messages = []; connected = true } }

  register-IsView :
      (c : Context A M) (first b : A)
      → IsMade c
      → (c' : Context A M) × (h : Handle A) × (register
            (record { addr_of_new = some first; addr_of_register = some b })
            c
          ≡ some (c', h))
        × (h.addr ≡ first)
        × IsView h.write_queue (registered_view b) c'
  unfolding register peer_new
  register-IsView c first b made =
      let h : Handle A = record { addr = first; write_queue = length c.queues } in
      let same : nat_eq (length c.queues) (length c.queues) ≡ true = ground arith in
      (
        _,
        h,
        refl,
        refl,
        record {
          at_place = get-last c.queues (record { messages = []; connected = true });
          keyed =
              key-insert (length c.queues) b h c.peers same
                (key-none (length c.queues) c.peers made);
        },
      )

  -- After any events from a new server on, a stream with both addresses is registered; then any
  -- further events happen, all without a panic. The handle has the first address, and its channel
  -- holds what its own view of these events gives. A broadcast is put into it while the handle is a
  -- peer, until another stream comes under the same second address or that peer is dropped; an answer
  -- is put into it when it was written with this channel's handle, whether or not that is a peer then;
  -- and nothing is put into it once its writer has ended.
  pub registered_channel :
      (before later : List (Event A M)) (first b : A) (c mid c' : Context A M) (h : Handle A)
      → run_events before new ≡ ok c
      → register (record { addr_of_new = some first; addr_of_register = some b }) c ≡ some (mid, h)
      → run_events later mid ≡ ok c'
      → (h.addr ≡ first)
        × (get_elem? c'.queues h.write_queue
            ≡ some (view_after_all h.write_queue later (registered_view b)).queue)
  unfolding new
  registered_channel before later first b c mid c' h e registers ran =
      let made = run_events-IsMade before new c tt e in
      let (mid', h', done, named, view) = register-IsView c first b made in
      let same : (mid', h') ≡ (mid, h) = some_inj (sym done ∙ registers) in
      subst
        (λ (r : Context A M × Handle A).
          run_events later r.0 ≡ ok c'
          → (r.1.addr ≡ first)
            × (get_elem? c'.queues r.1.write_queue
                ≡ some (view_after_all r.1.write_queue later (registered_view b)).queue))
        same
        (λ ends. (
          named,
          (run_events-IsView h'.write_queue later (registered_view b) mid' c' view ends).at_place,
        ))
        ran
