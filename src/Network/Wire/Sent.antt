-- ===== src/Network/Wire/Sent.antt =====
-- The messages that one node sends, and what they make of the node that gets their bytes.
use mathlib.Core.List.Perm
use final.Base.{
  ℕ, suc, ◌≡◌, ap, ◌∙◌, some, List, [], ◌∷◌, map, get_elem?, All, inl, inr, ok, >>=-eq-ok,
  ok-injective, Bool-cases,
}
use final.Data.{Message}
use final.External.{External}
use final.Network.Worker.{Worker, handle_message, worker_loop}
use final.Network.Wire.{
  usable, Threads, start, locks_chain, handled, handle_held, Turn, takes, handles, turn, serve,
}
use final.Network.Wire.Serial.{IsSendable, received}

module _ (x : External) where
  -- One thread after the other takes a message and handles it.
  abbrev in_turn : Worker → List Message → List Turn
  in_turn left [] = []
  in_turn left (msg ∷ msgs) = takes ∷ handles 0 left ∷ in_turn left msgs

  abbrev alone : ℕ → Message → Worker → Threads
  alone live msg w = record { live = live; held = msg ∷ []; worker = w; chain_lock = usable }

  handle_held-alone :
      (live : ℕ) (msg : Message) (left w w' : Worker)
      → handle_message x msg w ≡ ok w'
      → handle_held x 0 left (alone live msg w) (some msg) ≡ start (suc live) w'
  unfolding start
  handle_held-alone live msg left w w' e =
      let done : handled 0 left (alone live msg w) (handle_message x msg w) ≡ start (suc live) w' =
        ap (handled 0 left (alone live msg w)) e in
      elim (Bool-cases (locks_chain msg)) [ inl locks ↦ rw locks done | inr free ↦ rw free done ]

  -- Where the handlers get through the messages in order, threads that do so handle them all.
  serve-in_turn :
      (live : ℕ) (msgs : List Message) (left w w' : Worker)
      → All (IsSendable x) msgs
      → worker_loop x msgs w ≡ ok w'
      → serve x (in_turn left msgs) (start (suc live) w) (map x.bincode_serialize msgs)
        ≡ (start (suc live) w', [])
  unfolding serve turn start worker_loop
  serve-in_turn live [] left w w' all e = ap (λ k. (start (suc live) k, [])) (ok-injective e)
  serve-in_turn live (msg ∷ msgs) left w w' (first, all) e =
      let (mid, one, rest) = >>=-eq-ok (handle_message x msg w) _ e in
      let more = map x.bincode_serialize msgs in
      ap
        (λ (t : Threads).
          serve x (in_turn left msgs) (handle_held x 0 left t (get_elem? t.held 0)) more)
        (received x (start (suc live) w) live msg first.0)
      ∙ ap (λ (t : Threads). serve x (in_turn left msgs) t more)
          (handle_held-alone live msg left w mid one)
      ∙ serve-in_turn live msgs left mid w' all rest
