-- ===== src/Api/Requests.antt =====
-- api/mod.rs: the requests, the parsing of their parameters, and the endpoints that start something.
pub mod Generator
pub mod Starting
use final.Base.{
  ℕ, zero, suc, ◌+◌, ◌-◌, ◌*◌, ◌^◌, Bool, true, false, Option, none, some, List, [], ◌∷◌, ◌++◌, map,
  ◌&&◌, leb, ltb, nat_eq, if◌then◌else◌, Run, ok, ◌>>=◌, PartialEq, bytes_eq, bytes_eq_iff,
}
use final.Base.Parse.{parse_u64, to_string}
use final.Base.HashMap.{HashMap, get, insert}
use final.Data.{Address, Message}
use final.External.{External}
use final.Blockchain.{Blockchain}
use final.Miner.{ControlSignal, handle_start}
use final.Transaction.Generator.{Draw, Progress, returned, panicked, goes_on, generate_tx_loop}
use final.Api.{StateAnswer, longest_chain, longest_chain_tx, state}

-- Texts are compared byte by byte.
instance abbrev pub text_key : PartialEq (List ℕ)
text_key = record { eq = bytes_eq; eq_iff = bytes_eq_iff }

-- `query_pairs().into_owned().collect()`: the last value of a name counts.
unfoldable pub collect :
    HashMap (List ℕ) (List ℕ) → List (List ℕ × List ℕ) → HashMap (List ℕ) (List ℕ)
collect params [] = params
collect params (pair ∷ pairs) = collect (insert params pair.0 pair.1) pairs

-- What the two matches on a parameter find.
pub data Parameter : Type 0 where
  missing malformed : Parameter
  value : ℕ → Parameter

abbrev pub parsed : Option ℕ → Parameter
parsed none = malformed
parsed (some n) = value n

unfoldable pub parameter : List ℕ → List (List ℕ × List ℕ) → Parameter
unfolding collect parse_u64
parameter name query_pairs = elim (get (collect [] query_pairs) name) [
  | none ↦ missing
  | some v ↦ parsed (parse_u64 v)
]

abbrev pub lambda_name : List ℕ
lambda_name = b'l' ∷ b'a' ∷ b'm' ∷ b'b' ∷ b'd' ∷ b'a' ∷ []

abbrev pub theta_name : List ℕ
theta_name = b't' ∷ b'h' ∷ b'e' ∷ b't' ∷ b'a' ∷ []

abbrev pub block_name : List ℕ
block_name = b'b' ∷ b'l' ∷ b'o' ∷ b'c' ∷ b'k' ∷ []

-- A url that cannot be parsed, the paths that the server knows, and every other one.
pub data Endpoint : Type 0 where
  miner_start tx_generator_start network_ping : Endpoint
  blockchain_longest_chain blockchain_longest_chain_tx blockchain_longest_chain_tx_count
        blockchain_state :
      Endpoint
  malformed_url unknown_path : Endpoint

-- A request: its url is parsed outside.
pub record Request : Type 0 where
  pub path : Endpoint
  pub query_pairs : List (List ℕ × List ℕ)

-- The texts of the answers of `respond_result`; a text for a parse error goes on with the error.
pub data Text : Type 0 where
  missing_lambda error_parsing_lambda missing_theta error_parsing_theta : Text
  missing_block_count error_parsing_block_count block_count_is_too_large : Text
  invalid_block_count_text : Text
  error_parsing_url : Text
  ok_text started_tx_generator already_started_tx_generator unimplemented : Text

-- `respond_result`, `respond_json` for the three answers on the chain, and the answer with status
-- 404.
pub data Response : Type 0 where
  result : Bool → Text → Response
  hashes : List (List ℕ) → Response
  transactions : List (List (List ℕ)) → Response
  states : List (List ℕ) → Response
  not_found : Response

-- Where the thread of a request gets: to an answer; into `generate_tx_loop`, where it still is; into
-- `lock()`, while another thread holds the guard; or to its end by a panic, without an answer.
pub data Outcome : Type 0 where
  responds : Response → Outcome
  generates : ℕ → Outcome
  waits_for_guard panics : Outcome

-- The mutex of the flag: free, held, or poisoned by a panic of its holder.
pub data Guard : Type 0 where
  free held poisoned : Guard

-- What the requests share: the miner's channel, the network's, the flag, and its mutex.
pub record Server : Type 0 where
  pub control_chan : List ControlSignal
  pub broadcasts : List Message
  pub started_tx_gen : Bool
  pub guard : Guard

-- "/miner/start"
unfoldable pub start_miner : Parameter → Server → Server × Outcome
start_miner missing s = (s, responds (result false missing_lambda))
start_miner malformed s = (s, responds (result false error_parsing_lambda))
start_miner (value lambda) s =
    (record s { control_chan = handle_start lambda s.control_chan }, responds (result true ok_text))

-- What becomes of the mutex and of the request that has called the generator, by how far it has got.
abbrev pub after_generator : ℕ → Progress → Server → Server × Outcome
after_generator theta (returned msgs) s = (
  record s { broadcasts = s.broadcasts ++ msgs; guard = free },
  responds (result true started_tx_generator),
)
after_generator theta (panicked msgs) s =
    (record s { broadcasts = s.broadcasts ++ msgs; guard = poisoned }, panics)
after_generator theta (goes_on msgs) s =
    (record s { broadcasts = s.broadcasts ++ msgs; guard = held }, generates theta)

-- The thread that has got the guard.
unfoldable pub with_guard : External → List Draw → ℕ → Server → Server × Outcome
unfolding generate_tx_loop
with_guard x draws theta s =
    if s.started_tx_gen
    then (s, responds (result true already_started_tx_generator))
    else after_generator theta (generate_tx_loop x draws) (record s { started_tx_gen = true })

-- "/tx-generator/start"
unfoldable pub start_tx_generator : External → List Draw → Parameter → Server → Server × Outcome
unfolding with_guard
start_tx_generator x draws missing s = (s, responds (result false missing_theta))
start_tx_generator x draws malformed s = (s, responds (result false error_parsing_theta))
start_tx_generator x draws (value theta) s = elim (s.guard) [
  | free ↦ with_guard x draws theta s
  | held ↦ (s, waits_for_guard)
  | poisoned ↦ (s, panics)
]

abbrev pub test_ping : Message
test_ping = Message.ping (b'T' ∷ b'e' ∷ b's' ∷ b't' ∷ b' ' ∷ b'p' ∷ b'i' ∷ b'n' ∷ b'g' ∷ [])

-- The text of an account: its address, its nonce and its balance.
unfoldable pub state_string : External → Address × (ℕ × ℕ) → List ℕ
unfolding to_string
state_string x account =
    x.address_json account.0 ++ b' ' ∷ to_string account.1.0 ++ b' ' ∷ to_string account.1.1

unfoldable pub state_response : External → StateAnswer → Response
unfolding state_string
state_response x StateAnswer.block_count_too_large = result false block_count_is_too_large
state_response x StateAnswer.invalid_block_count = result false invalid_block_count_text
state_response x (StateAnswer.accounts s) = states (map (state_string x) (x.state_order s))

-- "/blockchain/state"
unfoldable pub get_state : External → ℕ → Blockchain → Parameter → Run Response
unfolding state_response
get_state x fuel c missing = ok (result false missing_block_count)
get_state x fuel c malformed = ok (result false error_parsing_block_count)
get_state x fuel c (value block) = state x fuel block c >>= λ a. ok (state_response x a)

-- The match on the url and on its path.
unfoldable pub respond :
    External
    → ℕ
    → Blockchain
    → List Draw
    → Endpoint
    → List (List ℕ × List ℕ)
    → Server
    → Run (Server × Outcome)
unfolding start_miner start_tx_generator get_state parameter
respond x fuel c draws miner_start query s = ok (start_miner (parameter lambda_name query) s)
respond x fuel c draws tx_generator_start query s =
    ok (start_tx_generator x draws (parameter theta_name query) s)
respond x fuel c draws network_ping query s =
    ok (record s { broadcasts = s.broadcasts ++ test_ping ∷ [] }, responds (result true ok_text))
respond x fuel c draws blockchain_longest_chain query s =
    longest_chain x fuel c >>= λ v. ok (s, responds (hashes v))
respond x fuel c draws blockchain_longest_chain_tx query s =
    longest_chain_tx x fuel c >>= λ v. ok (s, responds (transactions v))
respond x fuel c draws blockchain_longest_chain_tx_count query s =
    ok (s, responds (result false unimplemented))
respond x fuel c draws blockchain_state query s =
    get_state x fuel c (parameter block_name query) >>= λ a. ok (s, responds a)
respond x fuel c draws malformed_url query s = ok (s, responds (result false error_parsing_url))
respond x fuel c draws unknown_path query s = ok (s, responds not_found)

-- A request, the chain as it then is, and what the generator draws if the request starts it.
pub record Arrival : Type 0 where
  pub blockchain : Blockchain
  pub draws : List Draw
  pub request : Request

-- Requests one after another.
unfoldable pub serve : External → ℕ → List Arrival → Server → Run (Server × List Outcome)
unfolding respond
serve x fuel [] s = ok (s, [])
serve x fuel (a ∷ requests) s = do
  first ← respond x fuel a.blockchain a.draws a.request.path a.request.query_pairs s
  rest ← serve x fuel requests (first.0)
  ok (rest.0, first.1 ∷ rest.1)

-- `Server::start`
abbrev pub start : Server
start = record { control_chan = []; broadcasts = []; started_tx_gen = false; guard = free }
