-- ===== src/Lib.antt =====
-- Verification of the Rust client of a proof-of-work ledger. The paths below are relative to
--   ece598pv-sp2022-main (4)/ece598pv-sp2022-main/src
--
-- The client keeps a tree of blocks with the ledger's state after each of them
-- (blockchain/mod.rs), a pool of signed transactions, and a buffer of blocks whose parent is
-- missing. Network workers (network/worker.rs) handle the messages of peers and change all three.
-- A miner (miner/mod.rs) extends the longest chain with the transactions of the pool, and the
-- miner's worker (miner/worker.rs) puts what it found into the chain and sends it out. An HTTP
-- server (api/mod.rs) answers questions on the chain, starts the miner, and starts a generator of
-- random transactions. main.rs starts all of these as threads that share the chain, the pool and
-- the buffer behind mutexes. Blocks and transactions are named by the SHA-256 digest of their JSON
-- text (types/).
--
-- Which file models what:
--   Data         the structs and enums of types/*.rs, network/message.rs
--   External     the crates that the code calls, as one parameter, and what they promise
--   Hash         types/hash.rs: order and text of a hash
--   Address      types/address.rs: the address of a public key
--   Block        types/block.rs: hashes of headers and signed transactions, generated blocks
--   Transaction  types/transaction.rs: sign, verify, delete_tx_from_mempool, generated
--                transactions, and execute_tx, whose loop is execute_loop and whose round is
--                execute_one. Ledger has the sum of the balances, Generator
--                generate_tx_loop, Effect what a block does to one account, Sequential the ledger
--                that execute_tx is compared with, and Order the view of a state that forgets the
--                order of its entries.
--   Merkle       types/merkle.rs: gen_helper is leaves, pad, join_pairs and build; order_proof is
--                grow and search_order; verify_helper is fold_proof
--   Blockchain   blockchain/mod.rs: the methods under their names; walk is the loop of
--                all_blocks_in_longest_chain
--   Network      network/worker.rs, in Network/Worker: handle_new_block is without_parent and
--                with_parent, whose loop over the orphans is adopt_loop; the match on a message
--                is handle_message. network/server.rs and network/peer.rs: Network/Framing has the
--                reader and the writer of a connection, Network/Server the start, the peers, their
--                channels, dispatch_control, Handle, and how a writer ends. Network/Wire has the
--                threads that start spawns, which take payloads of bytes, in any order of their
--                turns. Network/Gossip joins two nodes, each of which handles what the other sends.
--   Miner        miner/mod.rs: a round of miner_loop is poll and mine, and its loop is rounds;
--                handle_exit, handle_start and handle_update are Handle; miner/worker.rs is
--                Miner/Worker
--   Api          api/mod.rs: the answers on the longest chain and on the state after a block.
--                Api/Requests has the parameters, the match on the path, and the endpoints that
--                start the miner and the transaction generator.
--   Client       main.rs: the threads on their shared state, a step for what one of them does with
--                the locks that it holds. Client/Locks has the order in which each thread takes the
--                three mutexes.
--   Main         main.rs: what is started in which order, and the loop over the known peers
--   Base         lists, maps and outcomes; Tests has concrete inputs
--
-- State and errors. A method that changes its object takes and returns a record. Where the code
-- unwraps, indexes a map or a list, or adds integers, the model returns a Run: a value, a panic, or
-- no_fuel. A u32 or usize sum past its range is a panic, as in the debug build that the
-- repository's instructions and scripts use (cargo build, target/debug). A HashMap is an
-- association list with one entry for each key. A handler runs as one step with the locks that it
-- holds; the sequence of messages is a list, and Client interleaves the steps of all threads. In
-- Client/Locks a step is one lock or unlock, and a schedule is a list of the threads whose turn it
-- is.
--
-- Bounds and fuel. build gets the number of leaves, since each of its rounds leaves fewer nodes.
-- grow doubles high from 1 and gets one more than leaf_size; search_order halves its range and
-- gets one more than its upper end. adopt_loop gets one more than the length of the orphan
-- buffer; a loop past that has come back to an orphan, and in the code does not end. walk takes
-- its fuel as an argument, and any number past every stored length is enough. So does
-- read_frames, where any number past that of the messages is enough. exchange, of two nodes that
-- take turns, gets the number of turns; its theorems say which is enough. to_string writes at
-- most 20 digits, enough for 64 bits.
--
-- Parameters. SHA-256 and Ed25519 (ring), serde_json's text, bincode, read_exact (futures), and
-- the order in which a HashMap is visited are fields of External. IsDocumented states what is
-- relied on: a digest has 32 bytes, a signature that was made with a key verifies, read_exact
-- takes its number of bytes or fails, and a map is visited in some permutation. Nothing is
-- assumed on collisions: hashes that have to differ are hypotheses, or a collision is an
-- outcome. That bincode reads back a message that it wrote is a hypothesis on that message.
-- Random numbers and the time are arguments, and so are the parsing of a SocketAddr, the
-- outcome of a bind, a connect or a write, what peer_addr gives, and what a handler that panics
-- leaves behind.
--
-- Not modelled: sockets and the executor (network/server.rs, network/peer.rs), the parsing of
-- URLs and the text of HTTP responses (api/mod.rs), clap (main.rs), key generation
-- (types/key_pair.rs), sleeping, logging, and the test modules. A poisoned mutex is modelled
-- where threads go on after a panic, the mutex of the chain in Network/Wire and that of the flag
-- in Api/Requests; elsewhere a panic ends the run.
pub mod Base
pub mod Data
pub mod External
pub mod Hash
pub mod Address
pub mod Block
pub mod Transaction
pub mod Merkle
pub mod Blockchain
pub mod Network
pub mod Miner
pub mod Api
pub mod Client
pub mod Main
mod Tests
