-- ===== src/Network/Worker/Forged/Attack.antt =====
-- A whole message of such blocks.
use final.Base.{
  ℕ, ◌+◌, ◌^◌, ◌<◌, ◌≤◌, ◌≡◌, refl, sym, ap, ◌∙◌, List, [], ◌∷◌, none, some, true, ok, inl, inr,
  nat_eq, ◌==◌, Bool-cases, length, ==_eq, arith,
}
use mathlib.Core.Path.{subst}
use final.Base.HashMap.{get, get-insert, get-insert_self}
use final.Base.Entries.{IsMap, insert-IsMap}
use final.Data.{H256, h256_key, State, Block, Message}
use final.External.{External, IsDocumented}
use final.Block.{hash, get_parent, get_difficulty}
use final.Blockchain.{Blockchain, ico_state, get_block, get_block_state, get_parent_block, tip}
use final.Blockchain.Growth.{with_block, with_state}
use final.Blockchain.Invariant.{insert_short}
use final.Blockchain.Tip.{tip_found}
use final.Transaction.{delete_tx_from_mempool}
use final.Network.Worker.{
  Worker, without_parent, handle_new_block, receive_blocks, handle_message, send_some, broadcast,
}
use final.Network.Worker.Returns.{ico_state_returns}
use final.Network.Worker.Backwards.{last}
use final.Network.Worker.Forged.{
  easiest, IsForged, AreNew, Leads, AreNew-insert, as_stored, taken, handle_forged, Leads-grown,
}

module _ (x : External) (doc : IsDocumented x) where
  receive_forged :
      (goal k : ℕ) (s : State) (bs : List Block) (w : Worker) (p : Block)
      → k + length bs ≡ goal
      → goal < 2 ^ 32
      → IsForged x p bs
      → AreNew x w.blockchain.blocks w.orphan_buffer bs
      → Leads x goal w.blockchain p k s
      → (r : Worker × List H256) × (receive_blocks x bs w ≡ ok r)
        × Leads x goal (r.0).blockchain (last p bs) goal s
  unfolding receive_blocks get_block
  receive_forged goal k s [] w p ends small forged new lead =
      ((w, []), refl, subst (λ n. Leads x goal w.blockchain p n s) (omega (arith, ends)) lead)
  receive_forged goal k s (b ∷ bs) w p ends small (on, forged) (fresh, childless, apart, new) lead =
      let le : k + 1 ≤ goal = omega (arith, ends) in
      let done =
        handle_forged x doc goal k w p b s on le lead (omega (arith, le, small)) childless in
      let (r, rest, led) =
        receive_forged goal (k + 1) s bs (taken x doc k w b s) b (omega (arith, ends)) small forged
          (AreNew-insert x doc w.blockchain.blocks w.orphan_buffer (hash x b)
            (as_stored x doc k w b s) bs apart new)
          (Leads-grown x doc goal k w p b s on le lead) in
      ((r.0, hash x b ∷ r.1), rw (fresh, receive_blocks) (rw done (rw rest refl)), led)

  -- The worker with the root of the chain.
  root_taken : (root : Block) (w : Worker) (s : State) → Worker
  root_taken root w s = record w {
    blockchain = with_state (with_block w.blockchain (hash x root) root) (hash x root) s;
    mempool = delete_tx_from_mempool x w.mempool root.txs;
  }

  handle_root :
      (root : Block) (w : Worker) (s : State)
      → root.length ≡ 1
      → get w.blockchain.blocks (get_parent root) ≡ none
      → ico_state x ≡ ok s
      → handle_new_block x root w ≡ ok (root_taken root w s)
  unfolding handle_new_block get_parent_block get_block without_parent root_taken
  handle_root root w s one rootless made =
      let brief : nat_eq root.length 1 ≡ true = ground (arith, one) in
      rw (rootless, handle_new_block)
        (rw (brief, insert_short x w.blockchain root (omega (arith, one)), made) refl)

  Leads-root :
      (goal : ℕ) (root : Block) (w : Worker) (s : State)
      → root.length ≡ 1
      → get_difficulty root ≡ easiest
      → IsMap w.blockchain.blocks
      → ((h : H256) (b : Block) → get w.blockchain.blocks h ≡ some b → b.length < goal)
      → Leads x goal (root_taken root w s).blockchain root 1 s
  unfolding root_taken
  Leads-root goal root w s one easy distinct short = record {
    distinct = insert-IsMap w.blockchain.blocks (hash x root) root distinct;
    stored = root;
    stands = get-insert_self w.blockchain.blocks (hash x root) root;
    sized = one;
    easy = easy;
    known = get-insert_self w.blockchain.block_states (hash x root) s;
    others = λ h g e.
        let law = get-insert w.blockchain.blocks (hash x root) h root in
        elim (Bool-cases (hash x root == h)) [
          | inl same ↦ inl (sym (==_eq (hash x root) h same))
          | inr other ↦ inr (short h g (sym (rw other at law) ∙ e))
        ];
  }

  -- The longest block of the chain that has been taken in is its last one.
  Leads-tip :
      (goal : ℕ) (c : Blockchain) (p : Block) (s : State)
      → 1 ≤ goal
      → Leads x goal c p goal s
      → tip x c ≡ ok (hash x p)
  Leads-tip goal c p s pos lead =
      let (h, b, found, stands, longest) =
        tip_found x c (hash x p) lead.stored doc lead.distinct lead.stands
          (omega (arith, pos, lead.sized)) in
      elim (lead.others h b stands) [
        | inl same ↦ found ∙ ap (λ t. ok t) same
        | inr short ↦
            absurd (omega (arith, short, longest (hash x p) lead.stored lead.stands, lead.sized))
      ]

  -- A message of fewer than 2 ^ 32 blocks, of which the first is a root: it has length 1, the
  -- easiest difficulty and a parent that is not stored. The others have a length above 1, no
  -- transaction and this difficulty, and each names the one before it as its parent. The node has
  -- seen none of them, their hashes differ, and none is the parent of an orphan. If the message has
  -- more blocks than any stored block is long, the node handles it without a panic, its tip is then
  -- the last block of the message, and the state there is that of a new chain.
  pub handle_message_takes_forged :
      (root : Block) (bs : List Block) (w : Worker)
      → IsMap w.blockchain.blocks
      → root.length ≡ 1
      → get_difficulty root ≡ easiest
      → get w.blockchain.blocks (get_parent root) ≡ none
      → IsForged x root bs
      → AreNew x w.blockchain.blocks w.orphan_buffer (root ∷ bs)
      → 1 + length bs < 2 ^ 32
      → ((h : H256) (b : Block) → get w.blockchain.blocks h ≡ some b → b.length < 1 + length bs)
      → (w' : Worker) × (s : State) × (handle_message x (Message.blocks (root ∷ bs)) w ≡ ok w')
        × (tip x w'.blockchain ≡ ok (hash x (last root bs)))
        × (ico_state x ≡ ok s)
        × (get_block_state w'.blockchain (hash x (last root bs)) ≡ some s)
  unfolding handle_message receive_blocks get_block get_block_state root_taken
  handle_message_takes_forged root bs w distinct one easy rootless forged
        (fresh, childless, apart, new) small short =
      let goal = 1 + length bs in
      let (s, made) = ico_state_returns x doc in
      let u = root_taken root w s in
      let (r, rest, led) =
        receive_forged goal 1 s bs u root refl small forged
          (AreNew-insert x doc w.blockchain.blocks w.orphan_buffer (hash x root) root bs apart new)
          (Leads-root goal root w s one easy distinct short) in
      (
        send_some (λ hs. broadcast (Message.new_block_hashes hs)) (hash x root ∷ r.1) r.0,
        s,
        rw (fresh, receive_blocks) (rw (handle_root root w s one rootless made) (rw rest refl)),
        Leads-tip goal (r.0).blockchain (last root bs) s (omega arith) led,
        made,
        led.known,
      )
