-- ===== src/Network/Worker/Requests.antt =====
-- What a node asks for after an announcement, and what it answers to a request.
use mathlib.Core.List.{Memᴰ}
use final.Base.{◌≡◌, refl, ap, sym, ◌∙◌, ◌↔◌, List, [], ◌∷◌, Option-cases, inl, inr, none, some, ok}
use final.Base.HashMap.{HashMap, get}
use final.Data.{H256, h256_key, Block, Message}
use final.External.{External}
use final.Network.Worker.{Worker, written, unseen_hashes, found_values, send_some, handle_message}

module _ {V : Type 0} (m : HashMap H256 V) where
  unseen_of_mem :
      (h : H256) (hs : List H256) → Memᴰ h hs → get m h ≡ none → Memᴰ h (unseen_hashes m hs)
  unfolding unseen_hashes
  unseen_of_mem h [] i g = elim i [ ]
  unseen_of_mem h (k ∷ hs) (Memᴰ.head p) g =
      rw (sym (ap (get m) p) ∙ g, unseen_hashes) (Memᴰ.head p)
  unseen_of_mem h (k ∷ hs) (Memᴰ.tail i) g = elim (Option-cases (get m k)) [
    | inl unseen ↦ rw (unseen, unseen_hashes) (Memᴰ.tail (unseen_of_mem h hs i g))
    | inr (v, seen) ↦ rw (seen, unseen_hashes) (unseen_of_mem h hs i g)
  ]

  mem_of_unseen_cons :
      (h k : H256) (hs : List H256)
      → get m k ≡ none
      → (Memᴰ h (unseen_hashes m hs) → Memᴰ h hs × (get m h ≡ none))
      → Memᴰ h (k ∷ unseen_hashes m hs)
      → Memᴰ h (k ∷ hs) × (get m h ≡ none)
  mem_of_unseen_cons h k hs unseen ih (Memᴰ.head p) = (Memᴰ.head p, ap (get m) p ∙ unseen)
  mem_of_unseen_cons h k hs unseen ih (Memᴰ.tail i) = (Memᴰ.tail (ih i).0, (ih i).1)

  mem_of_unseen :
      (h : H256) (hs : List H256) → Memᴰ h (unseen_hashes m hs) → Memᴰ h hs × (get m h ≡ none)
  unfolding unseen_hashes
  mem_of_unseen h [] i = elim i [ ]
  mem_of_unseen h (k ∷ hs) i = elim (Option-cases (get m k)) [
    | inl unseen ↦
        mem_of_unseen_cons h k hs unseen (mem_of_unseen h hs) (rw (unseen, unseen_hashes) at i)
    | inr (v, seen) ↦
        let (stands, missing) = mem_of_unseen h hs (rw (seen, unseen_hashes) at i) in
        (Memᴰ.tail stands, missing)
  ]

  found_of_mem :
      (h : H256) (v : V) (hs : List H256)
      → Memᴰ h hs
      → get m h ≡ some v
      → Memᴰ v (found_values m hs)
  unfolding found_values
  found_of_mem h v [] i g = elim i [ ]
  found_of_mem h v (k ∷ hs) (Memᴰ.head p) g =
      rw (sym (ap (get m) p) ∙ g, found_values) (Memᴰ.head refl)
  found_of_mem h v (k ∷ hs) (Memᴰ.tail i) g = elim (Option-cases (get m k)) [
    | inl unseen ↦ rw (unseen, found_values) (found_of_mem h v hs i g)
    | inr (u, seen) ↦ rw (seen, found_values) (Memᴰ.tail (found_of_mem h v hs i g))
  ]

  -- A value of the answer is stored under a hash of the request.
  abbrev Asked : V → List H256 → Type 0
  Asked v hs = (h : H256) × Memᴰ h hs × (get m h ≡ some v)

  Asked-later : (v : V) (k : H256) (hs : List H256) → Asked v hs → Asked v (k ∷ hs)
  Asked-later v k hs (h, i, g) = (h, Memᴰ.tail i, g)

  Asked-cons :
      (v u : V) (k : H256) (hs : List H256)
      → get m k ≡ some u
      → (Memᴰ v (found_values m hs) → Asked v hs)
      → Memᴰ v (u ∷ found_values m hs)
      → Asked v (k ∷ hs)
  Asked-cons v u k hs seen ih (Memᴰ.head p) = (k, Memᴰ.head refl, seen ∙ ap some (sym p))
  Asked-cons v u k hs seen ih (Memᴰ.tail i) = Asked-later v k hs (ih i)

  mem_of_found : (v : V) (hs : List H256) → Memᴰ v (found_values m hs) → Asked v hs
  unfolding found_values
  mem_of_found v [] i = elim i [ ]
  mem_of_found v (k ∷ hs) i = elim (Option-cases (get m k)) [
    | inl unseen ↦ Asked-later v k hs (mem_of_found v hs (rw (unseen, found_values) at i))
    | inr (u, seen) ↦ Asked-cons v u k hs seen (mem_of_found v hs) (rw (seen, found_values) at i)
  ]

-- Announced hashes: the node asks its peer for a list of hashes, or sends nothing if that list is
-- empty. A hash is in the list exactly if it was announced and its block is not stored. The rest of
-- the node stays as it is.
pub handle_new_block_hashes :
    (x : External) (hashes : List H256) (w : Worker)
    → (asked : List H256) × (handle_message x (Message.new_block_hashes hashes) w
        ≡ ok (send_some (λ hs. written (Message.get_blocks hs)) asked w))
      × ((h : H256) → Memᴰ h asked ↔ (Memᴰ h hashes × (get w.blockchain.blocks h ≡ none)))
unfolding handle_message
handle_new_block_hashes x hashes w = (
  unseen_hashes w.blockchain.blocks hashes,
  refl,
  λ h. (
    mem_of_unseen w.blockchain.blocks h hashes,
    λ i. unseen_of_mem w.blockchain.blocks h hashes i.0 i.1,
  ),
)

-- A request for blocks: the answer, if it is not empty, has exactly the stored blocks under the
-- hashes of the request.
pub handle_get_blocks :
    (x : External) (hashes : List H256) (w : Worker)
    → (answer : List Block) × (handle_message x (Message.get_blocks hashes) w
        ≡ ok (send_some (λ bs. written (Message.blocks bs)) answer w))
      × ((b : Block)
          → Memᴰ b answer ↔ ((h : H256) × Memᴰ h hashes × (get w.blockchain.blocks h ≡ some b)))
unfolding handle_message
handle_get_blocks x hashes w = (
  found_values w.blockchain.blocks hashes,
  refl,
  λ b. (
    mem_of_found w.blockchain.blocks b hashes,
    λ (h, i, g). found_of_mem w.blockchain.blocks h b hashes i g,
  ),
)
