-- ===== src/Network/Wire/Serial.antt =====
-- Whatever the order of the threads' turns, what they share is what the handlers make of messages that
-- come one after another.
use native.Mathlib.Omega.{arith}
use mathlib.Core.List.Perm
use mathlib.Core.List.{Perm, append_assoc}
use mathlib.Core.Path.{subst}
use final.Base.{
  ℕ, zero, suc, ◌+◌, ◌≡◌, ◌⊎◌, refl, ap, sym, ◌∙◌, Option, none, some, List, [], ◌∷◌, ◌++◌, map,
  length, length-append, get_elem?, remove_at, All, inl, inr, Run, ok, panic, no_fuel, ◌>>=◌,
  >>=-eq-ok, ok-injective, Bool-cases,
}
use final.Data.{Message}
use final.External.{External}
use final.Network.Worker.{Worker, handle_message, worker_loop}
use final.Network.Framing.Roundtrip.{IsSmall}
use final.Network.Wire.{
  usable, Threads, locks_chain, receive, handled, with_chain, handle_held, take_first, Turn, takes,
  handles, turn, serve,
}

-- bincode reads the message that it wrote, of a length that fits in 32 bits.
abbrev pub IsSendable : External → Message → Type 0
IsSendable x msg =
    (x.bincode_deserialize (x.bincode_serialize msg) ≡ some msg) × IsSmall (x.bincode_serialize msg)

Perm-remove_at :
    (xs : List Message) (i : ℕ) (m : Message)
    → get_elem? xs i ≡ some m
    → Perm (m ∷ remove_at i xs) xs
Perm-remove_at [] i m e = cc e
Perm-remove_at (y ∷ xs) zero m e = subst (λ k. Perm (k ∷ xs) (y ∷ xs)) (cc e) (Perm.refl (y ∷ xs))
Perm-remove_at (y ∷ xs) (suc i) m e =
    Perm.trans (Perm.swap y m (remove_at i xs)) (Perm.cons y (Perm-remove_at xs i m e))

length-remove_at :
    (xs : List Message) (i : ℕ) (m : Message)
    → get_elem? xs i ≡ some m
    → suc (length (remove_at i xs)) ≡ length xs
length-remove_at [] i m e = cc e
length-remove_at (y ∷ xs) zero m e = refl
length-remove_at (y ∷ xs) (suc i) m e = omega (arith, length-remove_at xs i m e)

>>=-ok : (r : Run Worker) → (r >>= λ w. ok w) ≡ r
>>=-ok panic = refl
>>=-ok no_fuel = refl
>>=-ok (ok w) = refl

zero-or-suc : (n : ℕ) → (n ≡ 0) ⊎ ((m : ℕ) × (n ≡ suc m))
zero-or-suc zero = inl refl
zero-or-suc (suc m) = inr (m, refl)

module _ (x : External) where
  worker_loop-snoc :
      (done : List Message) (msg : Message) (w w' : Worker)
      → worker_loop x done w ≡ ok w'
      → worker_loop x (done ++ msg ∷ []) w ≡ handle_message x msg w'
  unfolding worker_loop
  worker_loop-snoc [] msg w w' e =
      >>=-ok (handle_message x msg w) ∙ ap (handle_message x msg) (ok-injective e)
  worker_loop-snoc (m ∷ done) msg w w' e =
      let (mid, first, rest) = >>=-eq-ok (handle_message x m w) _ e in
      rw first (worker_loop-snoc done msg mid w' rest)

  -- The threads have handled some of the messages that were taken, in some order, with no failure, and
  -- hold the others; and each of them still runs.
  pub record IsSerial (w : Worker) (num : ℕ) (taken : List Message) (t : Threads) : Type 0 where
    pub done : List Message
    pub split : Perm (done ++ t.held) taken
    pub state : worker_loop x done w ≡ ok t.worker
    pub lock : t.chain_lock ≡ usable
    pub running : t.live + length t.held ≡ num

  -- Some of the messages that were taken are such that the handlers, in some order, do not get through
  -- them.
  pub record Breaks (w : Worker) (taken : List Message) : Type 0 where
    pub done : List Message
    pub others : List Message
    pub split : Perm (done ++ others) taken
    pub fails : (worker_loop x done w ≡ panic) ⊎ (worker_loop x done w ≡ no_fuel)

  abbrev pub Holds : Worker → ℕ → List Message → Threads → Type 0
  Holds w num taken t = IsSerial w num taken t ⊎ Breaks w taken

  Breaks-snoc :
      (w : Worker) (taken : List Message) (msg : Message)
      → Breaks w taken
      → Breaks w (taken ++ msg ∷ [])
  Breaks-snoc w taken msg b = record {
    done = b.done;
    others = b.others ++ msg ∷ [];
    split =
        subst (λ l. Perm l (taken ++ msg ∷ [])) (append_assoc b.done b.others (msg ∷ []))
          (Perm.append_right (msg ∷ []) b.split);
    fails = b.fails;
  }

  -- The message of a turn goes from those held to those handled.
  moved :
      (w : Worker) (num : ℕ) (taken : List Message) (t : Threads) (i : ℕ) (msg : Message)
      (s : IsSerial w num taken t)
      → get_elem? t.held i ≡ some msg
      → Perm ((s.done ++ msg ∷ []) ++ remove_at i t.held) taken
  moved w num taken t i msg s at_i =
      subst (λ l. Perm l taken) (sym (append_assoc s.done (msg ∷ []) (remove_at i t.held)))
        (Perm.trans (Perm.append_left s.done (Perm-remove_at t.held i msg at_i)) s.split)

  handled-Holds :
      (w left : Worker) (num : ℕ) (taken : List Message) (t : Threads) (i : ℕ) (msg : Message)
      (r : Run Worker)
      → IsSerial w num taken t
      → get_elem? t.held i ≡ some msg
      → handle_message x msg t.worker ≡ r
      → Holds w num taken (handled i left t r)
  handled-Holds w left num taken t i msg (ok w') s at_i ran = inl (record {
    done = s.done ++ msg ∷ [];
    split = moved w num taken t i msg s at_i;
    state = worker_loop-snoc s.done msg w t.worker s.state ∙ ran;
    lock = s.lock;
    running = omega (arith, s.running, length-remove_at t.held i msg at_i);
  })
  handled-Holds w left num taken t i msg panic s at_i ran = inr (record {
    done = s.done ++ msg ∷ [];
    others = remove_at i t.held;
    split = moved w num taken t i msg s at_i;
    fails = inl (worker_loop-snoc s.done msg w t.worker s.state ∙ ran);
  })
  handled-Holds w left num taken t i msg no_fuel s at_i ran = inr (record {
    done = s.done ++ msg ∷ [];
    others = remove_at i t.held;
    split = moved w num taken t i msg s at_i;
    fails = inr (worker_loop-snoc s.done msg w t.worker s.state ∙ ran);
  })

  handle_held-Holds :
      (w left : Worker) (num : ℕ) (taken : List Message) (t : Threads) (i : ℕ)
      (found : Option Message)
      → IsSerial w num taken t
      → get_elem? t.held i ≡ found
      → Holds w num taken (handle_held x i left t found)
  handle_held-Holds w left num taken t i none s at_i = inl s
  handle_held-Holds w left num taken t i (some msg) s at_i =
      let done =
        handled-Holds w left num taken t i msg (handle_message x msg t.worker) s at_i refl in
      elim (Bool-cases (locks_chain msg)) [
        | inl locks ↦ rw locks (
            subst
              (λ k.
                Holds w num taken
                  (with_chain k i t (handled i left t (handle_message x msg t.worker))))
              (sym s.lock) done)
        | inr free ↦ rw free done
      ]

  pub received :
      (t : Threads) (live : ℕ) (msg : Message)
      → x.bincode_deserialize (x.bincode_serialize msg) ≡ some msg
      → receive x (x.bincode_serialize msg) live t
        ≡ record t { live = live; held = t.held ++ msg ∷ [] }
  unfolding receive
  received t live msg read = rw (read, receive) refl

  receive-Holds :
      (w : Worker) (num live : ℕ) (taken : List Message) (t : Threads) (msg : Message)
      → x.bincode_deserialize (x.bincode_serialize msg) ≡ some msg
      → t.live ≡ suc live
      → Holds w num taken t
      → Holds w num (taken ++ msg ∷ []) (receive x (x.bincode_serialize msg) live t)
  unfolding receive
  receive-Holds w num live taken t msg read waits (inr b) = inr (Breaks-snoc w taken msg b)
  receive-Holds w num live taken t msg read waits (inl s) =
      subst (Holds w num (taken ++ msg ∷ [])) (sym (received t live msg read)) (
        inl (record {
          done = s.done;
          split =
              subst (λ l. Perm l (taken ++ msg ∷ [])) (append_assoc s.done t.held (msg ∷ []))
                (Perm.append_right (msg ∷ []) s.split);
          state = s.state;
          lock = s.lock;
          running = omega (arith, s.running, waits, length-append t.held (msg ∷ []));
        }))

  turn-none :
      (t : Threads) (p : List ℕ) (payloads : List (List ℕ))
      → t.live ≡ 0
      → turn x takes t (p ∷ payloads) ≡ (t, p ∷ payloads)
  unfolding turn
  turn-none t p payloads e = ap (take_first x p payloads t) e

  turn-some :
      (t : Threads) (p : List ℕ) (payloads : List (List ℕ)) (live : ℕ)
      → t.live ≡ suc live
      → turn x takes t (p ∷ payloads) ≡ (receive x p live t, payloads)
  unfolding turn
  turn-some t p payloads live e = ap (take_first x p payloads t) e

  -- The turns from a state on: which messages have then been taken, and which are left.
  abbrev pub Served : Worker → ℕ → List Message → Threads × List (List ℕ) → Type 0
  Served w num msgs r =
      (taken : List Message) × (left : List Message) × (msgs ≡ taken ++ left)
      × (r.1 ≡ map x.bincode_serialize left)
      × Holds w num taken r.0

  pub serve-Served :
      (w : Worker) (num : ℕ) (turns : List Turn) (taken left : List Message) (t : Threads)
      → All (IsSendable x) left
      → Holds w num taken t
      → Served w num (taken ++ left) (serve x turns t (map x.bincode_serialize left))
  unfolding serve turn
  serve-Served w num [] taken left t all h = (taken, left, refl, refl, h)
  serve-Served w num (handles i stale ∷ turns) taken left t all (inr b) =
      serve-Served w num turns taken left (handle_held x i stale t (get_elem? t.held i)) all (inr b)
  serve-Served w num (handles i stale ∷ turns) taken left t all (inl s) =
      serve-Served w num turns taken left (handle_held x i stale t (get_elem? t.held i)) all
        (handle_held-Holds w stale num taken t i (get_elem? t.held i) s refl)
  serve-Served w num (takes ∷ turns) taken [] t all h = serve-Served w num turns taken [] t all h
  serve-Served w num (takes ∷ turns) taken (msg ∷ left) t (first, all) h =
      let payloads = map x.bincode_serialize left in
      let p = x.bincode_serialize msg in
      elim (zero-or-suc t.live) [
        | inl none_waits ↦
            subst (λ next. Served w num (taken ++ msg ∷ left) (serve x turns next.0 next.1))
              (sym (turn-none t p payloads none_waits))
              (serve-Served w num turns taken (msg ∷ left) t (first, all) h)
        | inr (live, waits) ↦
            subst (λ next. Served w num (taken ++ msg ∷ left) (serve x turns next.0 next.1))
              (sym (turn-some t p payloads live waits))
              (subst (λ msgs. Served w num msgs (serve x turns (receive x p live t) payloads))
                (append_assoc taken (msg ∷ []) left)
                (serve-Served w num turns (taken ++ msg ∷ []) left (receive x p live t) all
                  (receive-Holds w num live taken t msg first.0 waits h)))
      ]
