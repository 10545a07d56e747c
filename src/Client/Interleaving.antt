-- ===== src/Client/Interleaving.antt =====
-- The threads of main.rs, interleaved: each step keeps the client sound.
use mathlib.Core.Path.{subst}
use native.Mathlib.Omega.{arith}
use final.Base.{
  ℕ, ◌≤◌, ◌≡◌, refl, ap, sym, ◌∙◌, List, [], ◌∷◌, ◌++◌, All, ok, >>=-eq-ok, ok-injective, inl,
}
use final.Base.HashMap.{get, insert as put}
use final.Data.{H256, h256_key, State, Block, Message}
use final.External.{External}
use final.Block.{hash, do_generate_random_block}
use final.Blockchain.Genesis.{get-single}
use final.Blockchain
use final.Blockchain.{Blockchain, ico_state, tip, get_block, get_block_state}
use final.Blockchain.Growth.{
  HasStates, IsKeyed, Extends, Extends-trans, with_state, with_block, with_block-Extends,
  with_state-Extends, with_state-Knows_self, insert-Extends,
}
use final.Network.Worker.{Worker, broadcast}
use final.Network.Worker.Pool.{
  IsVerified, delete-IsVerified, handle_message-IsVerified, handle_new_block-mempool,
}
use final.Network.Worker.States.{handle_message-Extends, handle_new_block-Extends}
use final.Miner
use final.Miner.{Miner, mine, candidate, finish_block, get_block_template, chain_parent, pick_txs}
use final.Miner.Worker.{forward_block}
use final.Client.{
  Client, worker_view, with_worker, started, Step, message, new_block, look, control, try_nonce,
  forward, Reach, start, later,
}
use final.Client.Soundness.{
  CanInsert, IsSound, All-map, CanInsert-Extends, grown-IsSound, chain_parent-Stores, look-IsSound,
  mine-IsSound,
}

module _ (x : External) where
  forward-IsSound :
      (c : Client) (b : Block) (rest : List Block) (forwarded : Blockchain × Message)
      → c.miner.finished_blocks ≡ b ∷ rest
      → forward_block x b c.miner.blockchain ≡ ok forwarded
      → IsSound x c
      → IsSound x (record c {
        miner = record (c.miner) { blockchain = forwarded.0; finished_blocks = rest };
        sent = c.sent ++ broadcast forwarded.1 ∷ [];
      })
  unfolding forward_block
  forward-IsSound c b rest forwarded waiting e s =
      let (chain, inserted, end) = >>=-eq-ok (Blockchain.insert x c.miner.blockchain b) _ e in
      let ready = subst (All (CanInsert x c.miner.blockchain)) waiting s.finished in
      let grown =
        subst (λ (f : Blockchain × Message). Extends x c.miner.blockchain f.0) (ok-injective end)
          (insert-Extends x c.miner.blockchain chain b ready.0.0 inserted) in
      let whole =
        grown-IsSound x c forwarded.0 c.miner.mempool c.orphan_buffer
          (c.sent ++ broadcast forwarded.1 ∷ []) grown s.verified s in
      record {
        states = whole.states;
        keyed = whole.keyed;
        distinct = whole.distinct;
        parent_known = whole.parent_known;
        parent_stored = whole.parent_stored;
        genesis = whole.genesis;
        finished =
            All-map (CanInsert x c.miner.blockchain) (CanInsert x forwarded.0) rest
              (CanInsert-Extends x c.miner.blockchain forwarded.0 grown) ready.1;
        verified = s.verified;
      }

  worker-IsSound :
      (c : Client) (w : Worker)
      → Extends x c.miner.blockchain w.blockchain
      → IsVerified x w.mempool
      → IsSound x c
      → IsSound x (with_worker c w)
  worker-IsSound c w grown verified s =
      grown-IsSound x c w.blockchain w.mempool w.orphan_buffer w.sent grown verified s

  -- A step of any thread.
  Step-IsSound : (c c' : Client) → Step x c c' → IsSound x c → IsSound x c'
  Step-IsSound c c' (message msg w e end) s = subst (IsSound x) (sym end) (
      worker-IsSound c w (handle_message-Extends x msg (worker_view c) w e)
        (handle_message-IsVerified x msg (worker_view c) w s.verified e) s)
  Step-IsSound c c' (new_block b w new e end) s =
      let verified =
        subst (IsVerified x) (sym (handle_new_block-mempool x b (worker_view c) w e))
          (delete-IsVerified x c.miner.mempool b.txs s.verified) in
      subst (IsSound x) (sym end)
        (worker-IsSound c w (handle_new_block-Extends x b (worker_view c) w e) verified s)
  Step-IsSound c c' (look p e end) s = subst (IsSound x) (sym end) (look-IsSound x c p e s)
  Step-IsSound c c' (control received polled e end) s = subst (IsSound x) (sym end) (record {
    states = s.states;
    keyed = s.keyed;
    distinct = s.distinct;
    parent_known = s.parent_known;
    parent_stored = s.parent_stored;
    genesis = s.genesis;
    finished = s.finished;
    verified = s.verified;
  })
  Step-IsSound c c' (try_nonce nonce timestamp root m e end) s =
      subst (IsSound x) (sym end) (mine-IsSound x nonce timestamp root c m e s)
  Step-IsSound c c' (forward b rest forwarded waiting e end) s =
      subst (IsSound x) (sym end) (forward-IsSound c b rest forwarded waiting e s)

  -- The chain with one block and its state.
  single_chain-IsSound :
      (g0 : Block) (state : State) (g : Block)
      → g0.length ≤ 1
      → chain_parent x
          (record { blocks = (hash x g0, g0) ∷ []; block_states = (hash x g0, state) ∷ [] })
        ≡ ok g
      → IsSound x (
          started
            (record { blocks = (hash x g0, g0) ∷ []; block_states = (hash x g0, state) ∷ [] })
            g)
  unfolding Miner.new put get
  single_chain-IsSound g0 state g short read =
      let bare : Blockchain = record { blocks = []; block_states = [] } in
      let known = with_state bare (hash x g0) state in
      let grown =
        Extends-trans x bare known (with_block known (hash x g0) g0)
          (with_state-Extends x bare (hash x g0) state)
          (with_block-Extends x known (hash x g0) g0
            (with_state-Knows_self x bare (hash x g0) state) refl) in
      let chain = with_block known (hash x g0) g0 in
      let keyed : IsKeyed x chain = grown.keyed (λ h b e. cc e) in
      let states : HasStates chain = grown.states (λ h b e. cc e) in
      let (stored, of_g) = chain_parent-Stores x chain g keyed states read in
      let same = get-single (hash x g0) (hash x g) g0 g stored in
      record {
        states = states;
        keyed = keyed;
        distinct = grown.distinct tt;
        parent_known = of_g;
        parent_stored = (g, stored);
        genesis = (of_g, inl (subst (λ (k : Block). k.length ≤ 1) same.1 short));
        finished = tt;
        verified = λ h tx e. cc e;
      }

  start-IsSound :
      (genesis_parent : H256) (nonce timestamp : ℕ) (root : H256) (chain : Blockchain) (g : Block)
      → Blockchain.new x genesis_parent nonce timestamp root ≡ ok chain
      → chain_parent x chain ≡ ok g
      → IsSound x (started chain g)
  unfolding Blockchain.new do_generate_random_block put hash
  start-IsSound genesis_parent nonce timestamp root chain g e read =
      let (state, _, end) = >>=-eq-ok (ico_state x) _ e in
      let same = ok-injective end in
      subst (λ (k : Blockchain). IsSound x (started k g)) same
        (single_chain-IsSound (do_generate_random_block nonce timestamp root genesis_parent) state g
          (omega arith) (ap (λ (k : Blockchain). chain_parent x k) same ∙ read))

  -- Every state of the client is sound.
  pub Reach-IsSound : (c : Client) → Reach x c → IsSound x c
  Reach-IsSound _ (start genesis_parent nonce timestamp root chain g e read) =
      start-IsSound genesis_parent nonce timestamp root chain g e read
  Reach-IsSound c' (later {c} r step) = Step-IsSound c c' step (Reach-IsSound c r)
