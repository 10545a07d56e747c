-- ===== src/Miner/Control.antt =====
-- miner/mod.rs, lines 113 to 172: how the miner stops.
use final.Base.{
  ℕ, ◌≡◌, ◌≢◌, refl, sym, ap, ◌∙◌, List, [], ◌∷◌, ◌++◌, Run, >>=-eq-ok, ok-injective, ok, ◌⊎◌, inl,
  inr,
}
use final.Data.{H256, Block}
use final.External.{External}
use final.Miner.{
  Miner, ControlSignal, OperatingState, Received, signal, returns, continues, react, poll,
  chain_parent, miner_round, Input, after_round, rounds, Next, waits, mines,
}

-- The miner, once it has been told to stop.
abbrev stopped : Miner → Miner
stopped m = record m { operating_state = OperatingState.shut_down }

-- In every state, an exit signal shuts the miner down, and no mining follows in that round.
poll-exit :
    (s : OperatingState)
    → (poll s (signal ControlSignal.exit) ≡ ok (OperatingState.shut_down, returns))
      ⊎ (poll s (signal ControlSignal.exit) ≡ ok (OperatingState.shut_down, continues))
unfolding poll react
poll-exit OperatingState.paused = inr refl
poll-exit (OperatingState.run i) = inl refl
poll-exit OperatingState.shut_down = inl refl

-- While the chain has a tip: whatever state the miner is in, a round that receives an exit signal
-- mines nothing and leaves it shut down, and the round after that returns, whatever it receives,
-- with the chain, the mempool and the sent blocks as they were.
pub exit_stops :
    (x : External) (genesis_block p : Block) (m : Miner) (received : Received)
    (nonce nonce' timestamp timestamp' : ℕ) (root root' : H256)
    → chain_parent x m.blockchain ≡ ok p
    → ((miner_round x genesis_block (signal ControlSignal.exit) nonce timestamp root m
          ≡ ok (stopped m, returns))
        ⊎ (miner_round x genesis_block (signal ControlSignal.exit) nonce timestamp root m
            ≡ ok (stopped m, continues)))
      × (miner_round x genesis_block received nonce' timestamp' root' (stopped m)
          ≡ ok (stopped m, returns))
unfolding miner_round poll
exit_stops x g p m received nonce nonce' timestamp timestamp' root root' e = (
  elim (poll-exit m.operating_state) [
    | inl polled ↦ inl (rw (e, polled) refl)
    | inr polled ↦ inr (rw (e, polled) refl)
  ],
  rw e refl,
)

after_round-continues :
    (n n' : Next) (m m' : Miner) (rest : Run (Miner × Next))
    → after_round n m rest ≡ ok (m', n')
    → n' ≢ returns
    → (rest ≡ ok (m', n')) × ((longer : Run (Miner × Next)) → after_round n m longer ≡ longer)
after_round-continues returns n' m m' rest e on =
    absurd (on (sym (ap (λ (r : Miner × Next). r.1) (ok-injective e))))
after_round-continues waits n' m m' rest e on = (e, λ longer. refl)
after_round-continues continues n' m m' rest e on = (e, λ longer. refl)
after_round-continues mines n' m m' rest e on = (e, λ longer. refl)

-- The loop over more inputs, from where it has not returned.
rounds-append :
    (x : External) (g : Block) (is js : List Input) (m m' : Miner) (n : Next)
    → rounds x g is m ≡ ok (m', n)
    → n ≢ returns
    → rounds x g (is ++ js) m ≡ rounds x g js m'
unfolding rounds
rounds-append x g [] js m m' n e on = ap (λ (r : Miner × Next). rounds x g js r.0) (ok-injective e)
rounds-append x g (i ∷ is) js m m' n e on =
    let (ended, one, rest) =
      >>=-eq-ok (miner_round x g i.received i.random_nonce i.timestamp i.random_merkle m) _ e in
    let (later, goes_on) =
      after_round-continues ended.1 n ended.0 m' (rounds x g is ended.0) rest on in
    rw one (goes_on (rounds x g (is ++ js) ended.0) ∙ rounds-append x g is js ended.0 m' n later on)

-- While the loop has not returned and the chain then has a tip: an exit signal ends it by the round
-- after the next, whatever that round receives, with the chain, the mempool and the sent blocks as
-- the signal found them.
pub rounds_exit :
    (x : External) (g p : Block) (is js : List Input) (m m' : Miner) (n : Next) (i j : Input)
    → rounds x g is m ≡ ok (m', n)
    → n ≢ returns
    → i.received ≡ signal ControlSignal.exit
    → chain_parent x m'.blockchain ≡ ok p
    → rounds x g (is ++ (i ∷ j ∷ js)) m ≡ ok (stopped m', returns)
unfolding rounds
rounds_exit x g p is js m m' n i j e on exits tip =
    let (first, second) =
      exit_stops x g p m' j.received i.random_nonce j.random_nonce i.timestamp j.timestamp
        i.random_merkle j.random_merkle tip in
    rounds-append x g is (i ∷ j ∷ js) m m' n e on
    ∙ rw exits
        (elim first [ inl ends ↦ rw ends refl | inr waits_once ↦ rw waits_once (rw second refl) ])
