-- ===== src/Data.antt =====
-- The structs of types/hash.rs, types/address.rs, types/transaction.rs and types/block.rs, and the
-- messages of network/message.rs. A byte, a u32, a u64 and a u128 are natural numbers.
use final.Base.{ℕ, Bool, List, ◌↔◌, ◌≡◌, true, PartialEq, bytes_eq, bytes_eq_iff}
use final.Base.HashMap.{HashMap}

-- `struct H256([u8; 32])`
pub record H256 : Type 0 where
  pub bytes : List ℕ

-- `struct Address([u8; 20])`
pub record Address : Type 0 where
  pub bytes : List ℕ

-- the derived `PartialEq` of the two
abbrev pub H256_eq : H256 → H256 → Bool
H256_eq a b = bytes_eq a.bytes b.bytes

abbrev pub Address_eq : Address → Address → Bool
Address_eq a b = bytes_eq a.bytes b.bytes

pub H256_eq_iff : (a b : H256) → (H256_eq a b ≡ true) ↔ (a ≡ b)
H256_eq_iff a b = (
  λ h. λ i. record { bytes = (bytes_eq_iff a.bytes b.bytes).0 h i },
  λ h. (bytes_eq_iff a.bytes b.bytes).1 (λ i. (h i).bytes),
)

pub Address_eq_iff : (a b : Address) → (Address_eq a b ≡ true) ↔ (a ≡ b)
Address_eq_iff a b = (
  λ h. λ i. record { bytes = (bytes_eq_iff a.bytes b.bytes).0 h i },
  λ h. (bytes_eq_iff a.bytes b.bytes).1 (λ i. (h i).bytes),
)

instance abbrev pub h256_key : PartialEq H256
h256_key = record { eq = H256_eq; eq_iff = H256_eq_iff }

instance abbrev pub address_key : PartialEq Address
address_key = record { eq = Address_eq; eq_iff = Address_eq_iff }

pub record Transaction : Type 0 where
  pub sender : Address
  pub receiver : Address
  pub account_nonce : ℕ
  pub value : ℕ

-- the account nonce and the balance of each address
abbrev pub State : Type 0
State = HashMap Address (ℕ × ℕ)

pub record SignedTransaction : Type 0 where
  pub transaction : Transaction
  pub signature : List ℕ
  pub public_key : List ℕ

pub record Header : Type 0 where
  pub parent : H256
  pub nonce : ℕ
  pub difficulty : H256
  pub timestamp : ℕ
  pub merkle_root : H256

-- The fields `length`, `header` and `data` of the source; `data` is a list of transactions.
pub record Block : Type 0 where
  pub length : ℕ
  pub header : Header
  pub txs : List SignedTransaction

-- `String` is the list of its bytes.
pub data Message : Type 0 where
  ping : List ℕ → Message
  pong : List ℕ → Message
  new_block_hashes : List H256 → Message
  get_blocks : List H256 → Message
  blocks : List Block → Message
  new_transaction_hashes : List H256 → Message
  get_transactions : List H256 → Message
  transactions : List SignedTransaction → Message
