-- ===== src/Tests/Toy.antt =====
-- Stand-ins for the crates that satisfy what their documentation promises.
use native.Mathlib.Omega.{arith}
use mathlib.Core.List.Perm
use final.Base.{
  drop, leb, Option, some, none, if◌then◌else◌, true, ap, ℕ, zero, suc, ◌≡◌, ◌≤◌, ◌<◌, ◌%◌, refl,
  List, [], ◌∷◌, ◌++◌, map, length, take, length-append, bytes_eq, bytes_eq_refl, All,
}
use final.Data.{H256, Address, SignedTransaction, Block, Message}
use final.Hash.Order.{IsHash}
use final.External.{External, IsDocumented}

abbrev zero_bytes : ℕ → List ℕ
zero_bytes zero = []
zero_bytes (suc n) = 0 ∷ zero_bytes n

-- The first 20 bytes of the message, behind 12 bytes of zero.
abbrev pub toy_sha256 : List ℕ → List ℕ
toy_sha256 m = zero_bytes 12 ++ take 20 (map (λ b. b % 256) m ++ zero_bytes 20)

-- The nonce of a ping or of a pong, behind a number for the kind of the message.
abbrev toy_serialize : Message → List ℕ
toy_serialize (Message.ping nonce) = 0 ∷ nonce
toy_serialize (Message.pong nonce) = 1 ∷ nonce
toy_serialize _ = []

abbrev toy_deserialize : List ℕ → Option Message
toy_deserialize (zero ∷ nonce) = some (Message.ping nonce)
toy_deserialize (suc zero ∷ nonce) = some (Message.pong nonce)
toy_deserialize _ = none

-- A header stands for its nonce, and a signature is the key before the message.
abbrev pub toy : External
toy = record {
  sha256 = toy_sha256;
  header_json = λ h. h.nonce ∷ [];
  transaction_json = λ t. t.account_nonce ∷ t.value ∷ [];
  address_json = λ a. a.bytes;
  signed_json = λ tx. tx.transaction.account_nonce ∷ tx.transaction.value ∷ [];
  bincode_serialize = toy_serialize;
  bincode_deserialize = toy_deserialize;
  ed25519_sign = λ key m. key ++ m;
  ed25519_public = λ key. key;
  ed25519_verify = λ key m signature. bytes_eq signature (key ++ m);
  block_order = λ m. m;
  mempool_order = λ m. m;
  state_order = λ s. s;
  read_exact =
      λ n stream. if leb n (length stream) then some (take n stream, drop n stream) else none;
}

length-take_long : (n : ℕ) (xs : List ℕ) → n ≤ length xs → length (take n xs) ≡ n
length-take_long zero xs h = refl
length-take_long (suc n) [] h = omega arith
length-take_long (suc n) (b ∷ xs) h = omega (arith, length-take_long n xs (omega arith))

IsByte : ℕ → Type 0
IsByte b = b < 256

All-take : (n : ℕ) (xs : List ℕ) → All IsByte xs → All IsByte (take n xs)
All-take zero xs all = tt
All-take (suc n) [] all = tt
All-take (suc n) (b ∷ xs) (first, all) = (first, All-take n xs all)

All-zero_bytes : (n : ℕ) (rest : List ℕ) → All IsByte rest → All IsByte (zero_bytes n ++ rest)
unfolding IsByte
All-zero_bytes zero rest all = all
All-zero_bytes (suc n) rest all = (omega arith, All-zero_bytes n rest all)

All-bytes : (m rest : List ℕ) → All IsByte rest → All IsByte (map (λ b. b % 256) m ++ rest)
unfolding IsByte
All-bytes [] rest all = all
All-bytes (b ∷ m) rest all = (omega arith, All-bytes m rest all)

take_append : (xs ys : List ℕ) → take (length xs) (xs ++ ys) ≡ xs
take_append [] ys = refl
take_append (x ∷ xs) ys = ap (λ k. x ∷ k) (take_append xs ys)

drop_append : (xs ys : List ℕ) → drop (length xs) (xs ++ ys) ≡ ys
drop_append [] ys = refl
drop_append (x ∷ xs) ys = drop_append xs ys

read_all : (xs ys : List ℕ) → toy.read_exact (length xs) (xs ++ ys) ≡ some (xs, ys)
read_all xs ys =
    let enough : leb (length xs) (length (xs ++ ys)) ≡ true = ground (arith, length-append xs ys) in
    rw (enough, take_append xs ys, drop_append xs ys) refl

pub toy-IsDocumented : IsDocumented toy
unfolding IsByte
toy-IsDocumented = record {
  digest_length = λ m.
      let long =
        length-take_long 20 (map (λ b. b % 256) m ++ zero_bytes 20)
          (omega (arith, length-append (map (λ b. b % 256) m) (zero_bytes 20))) in
      omega (arith, long);
  digest_bytes = λ m. All-zero_bytes 12 (take 20 (map (λ b. b % 256) m ++ zero_bytes 20)) (
      All-take 20 (map (λ b. b % 256) m ++ zero_bytes 20)
        (All-bytes m (zero_bytes 20) (All-zero_bytes 20 [] tt)));
  sign_verifies = λ key m. bytes_eq_refl (key ++ m);
  block_visits = λ m. Perm.refl m;
  mempool_visits = λ m. Perm.refl m;
  state_visits = λ s. Perm.refl s;
  read_exact_all = λ bs rest. read_all bs rest;
  read_exact_eof = λ n stream short. ground arith;
}

-- a hash, an address and a block that a number names
abbrev pub toy_hash : ℕ → H256
toy_hash n = record { bytes = toy_sha256 (n ∷ []) }

abbrev pub toy_address : ℕ → Address
toy_address n = record { bytes = n ∷ [] }

abbrev pub toy_block : ℕ → ℕ → ℕ → List SignedTransaction → Block
toy_block length nonce parent_nonce txs = record {
  length = length;
  header = record {
    parent = toy_hash parent_nonce;
    nonce = nonce;
    difficulty = toy_hash 255;
    timestamp = 0;
    merkle_root = toy_hash 0;
  };
  txs = txs;
}

-- a transaction from one address to another, signed with the key 9
abbrev pub toy_tx : ℕ → ℕ → ℕ → ℕ → SignedTransaction
toy_tx sender receiver account_nonce value = record {
  transaction = record {
    sender = toy_address sender;
    receiver = toy_address receiver;
    account_nonce = account_nonce;
    value = value;
  };
  signature = 9 ∷ account_nonce ∷ value ∷ [];
  public_key = 9 ∷ [];
}

pub toy_hash-IsHash : (n : ℕ) → IsHash (toy_hash n)
toy_hash-IsHash n =
    (toy-IsDocumented.digest_length (n ∷ []), toy-IsDocumented.digest_bytes (n ∷ []))
