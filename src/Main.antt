-- ===== src/Main.antt =====
-- main.rs: what is started, in which order, and the connections to the known peers.
pub mod Peers
use final.Base.{ℕ, Bool, true, false, Option, none, some, List, [], ◌∷◌, ◌++◌, if◌then◌else◌}
use final.Base.Parse.{parse_u64}

-- The arguments, with the defaults filled in; no known peer may be given.
pub record Matches : Type 0 where
  pub peer_addr : List ℕ
  pub api_addr : List ℕ
  pub p2p_workers : List ℕ
  pub known_peer : List (List ℕ)

-- The threads and servers that have been started.
pub data Part (Addr : Type 0) : Type 0 where
  p2p_server api_server : Addr → Part Addr
  network_workers : ℕ → Part Addr
  miner miner_worker : Part Addr
  connector : List (List ℕ) → Part Addr

-- `process::exit(1)`, an `unwrap` of an error, or the loop of `park` at the end.
pub data Ending : Type 0 where
  exits panics parks : Ending

-- The inner loop for an address, over the results of the calls of `connect`: what comes after the
-- first success, or none while it is still retrying.
unfoldable pub retry : List Bool → Option (List Bool)
retry [] = none
retry (true ∷ results) = some results
retry (false ∷ results) = retry results

-- `SocketAddr` and its `parse` are taken from outside.
module _ {Addr : Type 0} (parse_addr : List ℕ → Option Addr) where
  -- The outer loop: the addresses that it has connected to.
  unfoldable pub connect_known_peers : List (List ℕ) → List Bool → List Addr
  unfolding retry
  connect_known_peers [] results = []
  connect_known_peers (peer ∷ known_peers) results = elim (parse_addr peer) [
    | none ↦ connect_known_peers known_peers results
    | some addr ↦ elim (retry results) [
      | none ↦ []
      | some rest ↦ addr ∷ connect_known_peers known_peers rest
    ]
  ]

  -- The thread that connects is started only for known peers.
  unfoldable pub connectors : List (List ℕ) → List (Part Addr)
  connectors [] = []
  connectors (peer ∷ peers) = connector (peer ∷ peers) ∷ []

  -- Whether a server can listen at an address is taken from outside.
  module _ (binds : Addr → Bool) where
    -- From the miner on, with what has been started before.
    unfoldable pub start_rest : List (Part Addr) → Addr → Matches → List (Part Addr) × Ending
    unfolding connectors
    start_rest started api_addr matches =
        let running = started ++ (miner ∷ miner_worker ∷ connectors matches.known_peer) in
        if binds api_addr then (running ++ api_server api_addr ∷ [], parks) else (running, panics)

    -- The three parses, of which the last comes after the start of the p2p server.
    unfoldable pub main : Matches → List (Part Addr) × Ending
    unfolding start_rest
    main matches = elim (parse_addr matches.peer_addr) [
      | none ↦ ([], exits)
      | some p2p_addr ↦ elim (parse_addr matches.api_addr) [
        | none ↦ ([], exits)
        | some api_addr ↦
            if binds p2p_addr
            then (elim (parse_u64 matches.p2p_workers) [
              | none ↦ (p2p_server p2p_addr ∷ [], exits)
              | some p2p_workers ↦
                  start_rest (p2p_server p2p_addr ∷ network_workers p2p_workers ∷ []) api_addr
                    matches
            ])
            else ([], panics)
      ]
    ]
