-- ===== src/Tests/Requests.antt =====
-- Requests to the API that start the transaction generator, and the text of an account.
use final.Base.{◌≡◌, refl, ok, true, false, List, [], ◌∷◌, take, map, bytes_eq}
use final.Base.Parse.{to_string, digits_of, parse_digits, parse_u64}
use final.Base.HashMap.{get, insert}
use final.Blockchain.{Blockchain, tip, tip_loop, get_block_state}
use final.Address.{from_public_key_bytes, last_20_bytes, to_be_bytes}
use final.Transaction.{do_generate_random_transaction, generate_signed}
use final.Transaction.Generator.{Draw, generate_round, generate_tx_loop}
use final.Tests.Chain.{start as one_block}
use final.Api.Requests.{
  Request, Arrival, Outcome, held, with_guard, state_string, responds, result, generates,
  waits_for_guard, ok_text, start, tx_generator_start, network_ping, theta_name, serve, respond,
  collect, parameter, start_tx_generator, test_ping, text_key,
}
use final.Api.Requests.Generator.{
  answered, starts_generator, is_value, generator_requests_unanswered,
}
use final.Data.{h256_key, SignedTransaction, Message}
use final.Tests.Toy.{toy}

abbrev no_chain : Blockchain
no_chain = record { blocks = []; block_states = [] }

abbrev generator_request : Request
generator_request = record {
  path = tx_generator_start;
  query_pairs = (theta_name, b'1' ∷ b'0' ∷ []) ∷ [];
}

abbrev ping_request : Request
ping_request = record { path = network_ping; query_pairs = [] }

abbrev draw : Draw
draw = record { rand_tx = 3; rand_rx = 4; rand_value = 25; key = 9 ∷ []; blockchain = one_block }

-- The generator, which is in its second round, a ping, and the generator again.
abbrev requests : List Arrival
requests =
    record { blockchain = no_chain; draws = draw ∷ []; request = generator_request }
    ∷ record { blockchain = no_chain; draws = []; request = ping_request }
    ∷ record { blockchain = no_chain; draws = []; request = generator_request }
    ∷ []

abbrev outcomes : List Outcome
outcomes = generates 10 ∷ responds (result true ok_text) ∷ waits_for_guard ∷ []

-- the message of the first round
abbrev sent_tx : SignedTransaction
sent_tx =
    generate_signed toy
      (record {
        sender = record {
          bytes =
              take 20 (
                0 ∷ 0 ∷ 0 ∷ 3 ∷ 0 ∷ 0 ∷ 0 ∷ 0 ∷ 0 ∷ 0 ∷ 0 ∷ 0 ∷ 0 ∷ 0 ∷ 0 ∷ 0 ∷ 0 ∷ 0 ∷ 0 ∷ 0 ∷ []);
        };
        receiver = record {
          bytes =
              take 20 (
                0 ∷ 0 ∷ 0 ∷ 4 ∷ 0 ∷ 0 ∷ 0 ∷ 0 ∷ 0 ∷ 0 ∷ 0 ∷ 0 ∷ 0 ∷ 0 ∷ 0 ∷ 0 ∷ 0 ∷ 0 ∷ 0 ∷ 0 ∷ []);
        };
        account_nonce = 1;
        value = 25;
      })
      (9 ∷ [])

requests_end :
    serve toy 0 requests start
    ≡ ok (
      record start {
        broadcasts = Message.transactions (sent_tx ∷ []) ∷ test_ping ∷ [];
        started_tx_gen = true;
        guard = held;
      },
      outcomes,
    )
unfolding serve respond parameter collect parse_u64 parse_digits start_tx_generator with_guard
    generate_tx_loop generate_round tip tip_loop get_block_state do_generate_random_transaction
    from_public_key_bytes last_20_bytes to_be_bytes get insert bytes_eq
requests_end = refl

generator_requests_unanswered_example : map answered outcomes ≡ false ∷ true ∷ false ∷ []
unfolding starts_generator is_value parameter collect parse_u64 parse_digits get insert bytes_eq
generator_requests_unanswered_example =
    generator_requests_unanswered toy 0 requests _ outcomes requests_end

-- "3 40 1024", behind the text of an address
account_text :
    state_string toy (record { bytes = b'3' ∷ [] }, (40, 1024))
    ≡ b'3' ∷ b' ' ∷ b'4' ∷ b'0' ∷ b' ' ∷ b'1' ∷ b'0' ∷ b'2' ∷ b'4' ∷ []
unfolding state_string to_string digits_of
account_text = refl
