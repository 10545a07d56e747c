-- ===== src/Tests/Node.antt =====
-- A node with the genesis block, and messages to it.
use final.Base.{◌≡◌, refl, [], ◌∷◌, ok, bytes_eq}
use final.Base.HashMap.{HashMap, get, insert as put}
use final.Data.{H256, h256_key, Message, SignedTransaction}
use final.Block.{hash_signed}
use final.Transaction.{verify}
use final.Network.Worker.{
  Worker, Sent, handle_message, worker_loop, check_tx_validity, receive_transactions,
}
use final.Network.Worker.Pool.{IsVerified, worker_loop-IsVerified}
use final.Tests.Toy.{toy, toy_tx}
use final.Tests.Chain.{start}

abbrev pub node : Worker
node = record { blockchain = start; orphan_buffer = []; mempool = []; sent = [] }

empty-IsVerified : IsVerified toy []
unfolding get
empty-IsVerified h tx e = cc

-- one signed transaction, and one whose signature is for another value
abbrev news : Message
news = Message.transactions (toy_tx 1 2 1 30 ∷ record (toy_tx 1 2 1 31) { signature = [] } ∷ [])

abbrev pool : HashMap H256 SignedTransaction
pool = (hash_signed toy (toy_tx 1 2 1 30), toy_tx 1 2 1 30) ∷ []

abbrev informed : Worker
informed = record node {
  mempool = pool;
  sent =
      Sent.broadcast (Message.new_transaction_hashes (hash_signed toy (toy_tx 1 2 1 30) ∷ [])) ∷ [];
}

two_messages_run : worker_loop toy (news ∷ Message.pong [] ∷ []) node ≡ ok informed
unfolding worker_loop handle_message receive_transactions hash_signed check_tx_validity verify get
    put bytes_eq
two_messages_run = refl

worker_loop-IsVerified_example : IsVerified toy pool
worker_loop-IsVerified_example =
    worker_loop-IsVerified toy (news ∷ Message.pong [] ∷ []) node informed empty-IsVerified
      two_messages_run
