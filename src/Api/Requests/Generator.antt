-- ===== src/Api/Requests/Generator.antt =====
-- api/mod.rs, lines 109 to 140: what becomes of the requests to start the transaction generator.
use final.Base.{
  ℕ, ◌≡◌, refl, sym, ap, ◌∙◌, Bool, true, false, not, List, [], ◌∷◌, map, ok, >>=-eq-ok,
  ok-injective,
}
use final.Blockchain.{Blockchain}
use final.Transaction.Generator.{
  Draw, Progress, returned, panicked, goes_on, Stays, generate_tx_loop, generate_tx_loop-Stays,
}
use final.External.{External}
use final.Api.{longest_chain, longest_chain_tx}
use final.Api.Requests.{
  Endpoint, miner_start, tx_generator_start, network_ping, blockchain_longest_chain,
  blockchain_longest_chain_tx, blockchain_longest_chain_tx_count, blockchain_state, malformed_url,
  unknown_path, Arrival, Guard, free, held, poisoned, with_guard, after_generator, panics,
  Parameter, missing, malformed, value, parameter, theta_name, lambda_name, block_name, Outcome,
  responds, generates, waits_for_guard, Server, start, start_miner, start_tx_generator, get_state,
  respond, serve,
}

-- The outcomes that are answers.
unfoldable pub answered : Outcome → Bool
answered (responds response) = true
answered (generates theta) = false
answered waits_for_guard = false
answered panics = false

unfoldable pub is_value : Parameter → Bool
is_value missing = false
is_value malformed = false
is_value (value n) = true

-- The requests to start the generator whose parameter can be parsed.
unfoldable pub starts_generator : Endpoint → List (List ℕ × List ℕ) → Bool
unfolding is_value
starts_generator tx_generator_start query = is_value (parameter theta_name query)
starts_generator _ query = false

-- The flag is set exactly while the guard is not free.
abbrev is_taken : Guard → Bool
is_taken free = false
is_taken held = true
is_taken poisoned = true

abbrev IsGuarded : Server → Type 0
IsGuarded s = s.started_tx_gen ≡ is_taken s.guard

abbrev Ends : Server × Outcome → Bool → Type 0
Ends r starts = IsGuarded r.0 × (answered r.1 ≡ not starts)

start_miner-Ends : (p : Parameter) (s : Server) → IsGuarded s → Ends (start_miner p s) false
unfolding start_miner answered
start_miner-Ends missing s g = (g, refl)
start_miner-Ends malformed s g = (g, refl)
start_miner-Ends (value lambda) s g = (g, refl)

after_generator-Ends :
    (theta : ℕ) (p : Progress) (s : Server)
    → Stays p
    → s.started_tx_gen ≡ true
    → Ends (after_generator theta p s) true
unfolding answered
after_generator-Ends theta (returned msgs) s stays g = absurd stays
after_generator-Ends theta (panicked msgs) s stays g = (g, refl)
after_generator-Ends theta (goes_on msgs) s stays g = (g, refl)

start_tx_generator-Ends :
    (x : External) (draws : List Draw) (p : Parameter) (s : Server)
    → IsGuarded s
    → Ends (start_tx_generator x draws p s) (is_value p)
unfolding start_tx_generator with_guard answered is_value
start_tx_generator-Ends x draws missing s g = (g, refl)
start_tx_generator-Ends x draws malformed s g = (g, refl)
start_tx_generator-Ends x draws (value theta) s g = by_guard s.guard refl
  where
    by_guard : (k : Guard) → s.guard ≡ k → Ends (start_tx_generator x draws (value theta) s) true
    by_guard free e =
        let fresh : s.started_tx_gen ≡ false = g ∙ ap is_taken e in
        rw (e, fresh)
          (after_generator-Ends theta (generate_tx_loop x draws)
            (record s { started_tx_gen = true; guard = free }) (generate_tx_loop-Stays x draws)
            refl)
    by_guard held e = rw e (g ∙ ap is_taken e, refl)
    by_guard poisoned e = rw e (g ∙ ap is_taken e, refl)

respond-Ends :
    (x : External) (fuel : ℕ) (c : Blockchain) (draws : List Draw) (path : Endpoint)
    (query : List (List ℕ × List ℕ)) (s : Server) (r : Server × Outcome)
    → respond x fuel c draws path query s ≡ ok r
    → IsGuarded s
    → Ends r (starts_generator path query)
unfolding respond starts_generator answered
respond-Ends x fuel c draws miner_start query s r e g =
    rw (← ok-injective e) (start_miner-Ends (parameter lambda_name query) s g)
respond-Ends x fuel c draws tx_generator_start query s r e g =
    rw (← ok-injective e) (start_tx_generator-Ends x draws (parameter theta_name query) s g)
respond-Ends x fuel c draws network_ping query s r e g = rw (← ok-injective e) (g, refl)
respond-Ends x fuel c draws blockchain_longest_chain query s r e g =
    let (v, _, end) = >>=-eq-ok (longest_chain x fuel c) _ e in rw (← ok-injective end) (g, refl)
respond-Ends x fuel c draws blockchain_longest_chain_tx query s r e g =
    let (v, _, end) = >>=-eq-ok (longest_chain_tx x fuel c) _ e in rw (← ok-injective end) (g, refl)
respond-Ends x fuel c draws blockchain_longest_chain_tx_count query s r e g =
    rw (← ok-injective e) (g, refl)
respond-Ends x fuel c draws blockchain_state query s r e g =
    let (a, _, end) = >>=-eq-ok (get_state x fuel c (parameter block_name query)) _ e in
    rw (← ok-injective end) (g, refl)
respond-Ends x fuel c draws malformed_url query s r e g = rw (← ok-injective e) (g, refl)
respond-Ends x fuel c draws unknown_path query s r e g = rw (← ok-injective e) (g, refl)

serve-answered :
    (x : External) (fuel : ℕ) (requests : List Arrival) (s s' : Server) (outcomes : List Outcome)
    → IsGuarded s
    → serve x fuel requests s ≡ ok (s', outcomes)
    → map answered outcomes
      ≡ map (λ a. not (starts_generator a.request.path a.request.query_pairs)) requests
unfolding serve
serve-answered x fuel [] s s' outcomes g e =
    ap (λ (r : Server × List Outcome). map answered r.1) (sym (ok-injective e))
serve-answered x fuel (a ∷ requests) s s' outcomes g e =
    let (first, one, e') =
      >>=-eq-ok (respond x fuel a.blockchain a.draws a.request.path a.request.query_pairs s) _ e in
    let (rest, others, end) = >>=-eq-ok (serve x fuel requests first.0) _ e' in
    let (guarded, answer) =
      respond-Ends x fuel a.blockchain a.draws a.request.path a.request.query_pairs s first one g in
    let ih = serve-answered x fuel requests first.0 rest.0 rest.1 guarded others in
    ap (λ (r : Server × List Outcome). map answered r.1) (sym (ok-injective end))
    ∙ (λ i. answer i ∷ ih i)

-- In any sequence of requests to a new server, whatever the generator draws, if no request to another
-- endpoint panics: exactly the requests to start the generator with a `theta` that can be parsed are
-- not answered. The first of them is in the loop of the generator, or has panicked in it; the others
-- wait for its guard, or panic on the poisoned mutex.
pub generator_requests_unanswered :
    (x : External) (fuel : ℕ) (requests : List Arrival) (s' : Server) (outcomes : List Outcome)
    → serve x fuel requests start ≡ ok (s', outcomes)
    → map answered outcomes
      ≡ map (λ a. not (starts_generator a.request.path a.request.query_pairs)) requests
generator_requests_unanswered x fuel requests s' outcomes e =
    serve-answered x fuel requests start s' outcomes refl e
