-- ===== src/Base/Parse.antt =====
-- `str::parse` for unsigned integers of 64 bits, and `to_string`.
use Prim.Native.Nat.{ℕ, zero, suc, ◌/◌, ◌%◌, ◌+◌, ◌-◌, ◌*◌, ◌^◌}
use mathlib.Core.Bool.{◌&&◌}
use mathlib.Core.Option.{Option, none, some}
use mathlib.Core.List.{List, [], ◌∷◌, ◌++◌}
use final.Base.Tests.{leb, ltb, nat_eq, if◌then◌else◌}

-- The digits of `parse::<u64>()`, and of `parse::<usize>()`: each step is checked for an overflow.
unfoldable pub parse_digits : ℕ → List ℕ → Option ℕ
parse_digits acc [] = some acc
parse_digits acc (c ∷ cs) =
    let rest = parse_digits (acc * 10 + (c - b'0')) cs in
    if leb b'0' c && leb c b'9' && ltb (acc * 10 + (c - b'0')) (2 ^ 64) then rest else none

-- A plus sign may stand before the digits, and there is at least one digit.
unfoldable pub parse_u64 : List ℕ → Option ℕ
unfolding parse_digits
parse_u64 [] = none
parse_u64 (c ∷ []) = parse_digits 0 (c ∷ [])
parse_u64 (c ∷ d ∷ cs) =
    if nat_eq c b'+' then parse_digits 0 (d ∷ cs) else parse_digits 0 (c ∷ d ∷ cs)

-- The decimal digits of a number, over a bound on how many there are.
unfoldable pub digits_of : ℕ → ℕ → List ℕ
digits_of zero n = []
digits_of (suc bound) n =
    let rest = digits_of bound (n / 10) in
    let last = (b'0' + n % 10) ∷ [] in if ltb n 10 then last else rest ++ last

-- A number of 64 bits has at most 20 of them.
unfoldable pub to_string : ℕ → List ℕ
unfolding digits_of
to_string n = digits_of 20 n
