-- ===== src/External.antt =====
-- The crates that the client calls: ring (SHA-256, Ed25519), serde_json, bincode, futures
-- (`read_exact`), and the iteration order of a `HashMap`, which std leaves open. They are one
-- parameter of the model.
use mathlib.Core.List.{Perm}
use final.Base.{ℕ, ◌<◌, Bool, true, List, ◌≡◌, length, All, Option, none, some, ◌++◌}
use final.Base.HashMap.{HashMap}
use final.Data.{H256, Address, State, Transaction, SignedTransaction, Header, Block, Message}

pub record External : Type 0 where
  -- `digest::digest(&digest::SHA256, bytes)`
  pub sha256 : List ℕ → List ℕ
  -- `serde_json::to_string`
  pub header_json : Header → List ℕ
  pub transaction_json : Transaction → List ℕ
  pub address_json : Address → List ℕ
  pub signed_json : SignedTransaction → List ℕ
  -- `bincode::serialize`, which succeeds on every message, and `bincode::deserialize`
  pub bincode_serialize : Message → List ℕ
  pub bincode_deserialize : List ℕ → Option Message
  -- `Ed25519KeyPair::sign` and `public_key` of a key pair, and `UnparsedPublicKey::verify`
  pub ed25519_sign : List ℕ → List ℕ → List ℕ
  pub ed25519_public : List ℕ → List ℕ
  pub ed25519_verify : List ℕ → List ℕ → List ℕ → Bool
  -- the order in which `iter` visits a map
  pub block_order : HashMap H256 Block → HashMap H256 Block
  pub mempool_order : HashMap H256 SignedTransaction → HashMap H256 SignedTransaction
  pub state_order : State → State
  -- `AsyncReadExt::read_exact` for a number of bytes: the bytes and the rest of the stream, or an
  -- error
  pub read_exact : ℕ → List ℕ → Option (List ℕ × List ℕ)

-- What the documentation of these crates promises.
pub record IsDocumented (x : External) : Type 0 where
  pub digest_length : (m : List ℕ) → length (x.sha256 m) ≡ 32
  pub digest_bytes : (m : List ℕ) → All (λ b. b < 256) (x.sha256 m)
  pub sign_verifies :
      (key m : List ℕ) → x.ed25519_verify (x.ed25519_public key) m (x.ed25519_sign key m) ≡ true
  pub block_visits : (m : HashMap H256 Block) → Perm (x.block_order m) m
  pub mempool_visits : (m : HashMap H256 SignedTransaction) → Perm (x.mempool_order m) m
  pub state_visits : (s : State) → Perm (x.state_order s) s
  pub read_exact_all : (bs rest : List ℕ) → x.read_exact (length bs) (bs ++ rest) ≡ some (bs, rest)
  pub read_exact_eof : (n : ℕ) (stream : List ℕ) → length stream < n → x.read_exact n stream ≡ none
