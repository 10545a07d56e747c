-- ===== src/Api/Requests/Starting.antt =====
-- api/mod.rs, lines 85 to 108: what `/miner/start` makes of its parameter.
use final.Base.{
  ℕ, ◌+◌, ◌-◌, ◌*◌, ◌^◌, ◌≤◌, ◌<◌, ◌≡◌, ◌≢◌, refl, ap, ◌∙◌, true, false, none, some, List, [], ◌∷◌,
  ◌++◌, All, ltb, leb, nat_eq, if◌then◌else◌, ok, Bool-cases, inl, inr, arith,
}
use final.Base.Parse.{parse_digits, parse_u64}
use final.Base.HashMap.{get}
use final.Blockchain.{Blockchain}
use final.External.{External}
use final.Transaction.Generator.{Draw}
use final.Miner.{ControlSignal, handle_start}
use final.Api.Requests.{
  text_key, collect, malformed, value, parsed, parameter, lambda_name, miner_start, result, ok_text,
  error_parsing_lambda, responds, Server, start_miner, respond,
}

-- The number that decimal digits stand for, without a bound.
unfoldable pub decimal : ℕ → List ℕ → ℕ
decimal acc [] = acc
decimal acc (c ∷ cs) = decimal (acc * 10 + (c - b'0')) cs

abbrev pub IsDigit : ℕ → Type 0
IsDigit c = (b'0' ≤ c) × (c ≤ b'9')

decimal-le : (acc : ℕ) (cs : List ℕ) → acc ≤ decimal acc cs
unfolding decimal
decimal-le acc [] = omega arith
decimal-le acc (c ∷ cs) = omega (arith, decimal-le (acc * 10 + (c - b'0')) cs)

-- The checked loop finds the number if it fits in 64 bits, and an error if it does not.
parse_digits-decimal :
    (acc : ℕ) (cs : List ℕ)
    → acc < 2 ^ 64
    → All IsDigit cs
    → parse_digits acc cs ≡ (if ltb (decimal acc cs) (2 ^ 64) then some (decimal acc cs) else none)
unfolding parse_digits decimal
parse_digits-decimal acc [] small all = ground (arith, small)
parse_digits-decimal acc (c ∷ cs) small (digit, all) =
    let next = acc * 10 + (c - b'0') in
    let low : leb b'0' c ≡ true = ground (arith, digit) in
    let high : leb c b'9' ≡ true = ground (arith, digit) in
    elim (Bool-cases (ltb next (2 ^ 64))) [
      | inl fits ↦ rw (low, high, fits) (parse_digits-decimal next cs (ground (arith, fits)) all)
      | inr over ↦
          let beyond : ltb (decimal next cs) (2 ^ 64) ≡ false =
            ground (arith, over, decimal-le next cs) in
          rw (low, high, over, beyond) refl
    ]

parse_u64-decimal :
    (cs : List ℕ)
    → cs ≢ []
    → All IsDigit cs
    → parse_u64 cs ≡ (if ltb (decimal 0 cs) (2 ^ 64) then some (decimal 0 cs) else none)
unfolding parse_u64
parse_u64-decimal [] some_digit all = absurd (some_digit refl)
parse_u64-decimal (c ∷ []) some_digit all = parse_digits-decimal 0 (c ∷ []) (omega arith) all
parse_u64-decimal (c ∷ d ∷ cs) some_digit all =
    let no_sign : nat_eq c b'+' ≡ false = ground (arith, all.0) in
    rw no_sign (parse_digits-decimal 0 (c ∷ d ∷ cs) (omega arith) all)

parameter_found :
    (name v : List ℕ) (query : List (List ℕ × List ℕ))
    → get (collect [] query) name ≡ some v
    → parameter name query ≡ parsed (parse_u64 v)
unfolding parameter
parameter_found name v query e = rw (e, parameter) refl

-- When the last `lambda` of a request to `/miner/start` is a text of one or more digits, the answer
-- is a success and the miner is sent the number, if it fits in 64 bits; otherwise the answer is an
-- error and nothing is sent.
pub start_miner_digits :
    (x : External) (fuel : ℕ) (c : Blockchain) (draws : List Draw) (query : List (List ℕ × List ℕ))
    (s : Server) (digits : List ℕ)
    → get (collect [] query) lambda_name ≡ some digits
    → digits ≢ []
    → All IsDigit digits
    → respond x fuel c draws miner_start query s
      ≡ ok (
          if ltb (decimal 0 digits) (2 ^ 64)
          then (
            record s {
              control_chan = s.control_chan ++ ControlSignal.start (decimal 0 digits) ∷ [];
            },
            responds (result true ok_text),
          )
          else (s, responds (result false error_parsing_lambda)))
unfolding respond start_miner handle_start
start_miner_digits x fuel c draws query s digits last some_digit all =
    let found = parameter_found lambda_name digits query last in
    let number = parse_u64-decimal digits some_digit all in
    elim (Bool-cases (ltb (decimal 0 digits) (2 ^ 64))) [
      | inl fits ↦
          let outcome : parameter lambda_name query ≡ value (decimal 0 digits) =
            found ∙ ap parsed number ∙ rw fits refl in
          rw (outcome, fits) refl
      | inr over ↦
          let outcome : parameter lambda_name query ≡ malformed =
            found ∙ ap parsed number ∙ rw over refl in
          rw (outcome, over) refl
    ]
