-- ===== src/Hash.antt =====
-- types/hash.rs: the order and the text of a 256-bit hash.
pub mod Order
pub mod Text
use Prim.Native.Nat.{compare, Ordering}
use final.Base.{
  ℕ, ◌+◌, ◌-◌, ◌*◌, ◌/◌, ◌%◌, Bool, true, false, Option, none, some, List, [], ◌∷◌, ◌++◌, ltb, leb,
  if◌then◌else◌, take, drop, get_elem?, length, nat_eq, Run, ok, panic, unwrap, ◌>>=◌,
}
use final.Data.{H256}
use final.External.{External}

-- `From<Digest>`: a SHA-256 digest has 32 bytes, so `copy_from_slice` does not panic.
abbrev pub of_digest : List ℕ → H256
of_digest d = record { bytes = d }

-- `From` and `AsRef` between a hash and an array of its bytes; a conversion that copies fills a
-- buffer of the same length.
abbrev pub from_array : List ℕ → H256
from_array input = record { bytes = input }

abbrev pub to_array : H256 → List ℕ
to_array input = input.bytes

-- `do_generate_random_hash`, over the bytes of the generator; `copy_from_slice` wants all 32.
unfoldable pub do_generate_random_hash : List ℕ → Run H256
do_generate_random_hash random_bytes =
    if nat_eq (length random_bytes) 32 then ok (from_array random_bytes) else panic

-- `Hashable for H256`
unfoldable pub hash : External → H256 → H256
hash x h = of_digest (x.sha256 h.bytes)

-- `u128::from_be_bytes`, and `u32::from_be_bytes`
unfoldable pub from_be_bytes : ℕ → List ℕ → ℕ
from_be_bytes acc [] = acc
from_be_bytes acc (b ∷ bs) = from_be_bytes (acc * 256 + b) bs

abbrev lexicographic : Ordering → Ordering → Ordering
lexicographic Ordering.eq lower = lower
lexicographic higher _ = higher

-- `Ord for H256`
unfoldable pub cmp : H256 → H256 → Ordering
unfolding from_be_bytes
cmp self other =
    let self_higher = from_be_bytes 0 (take 16 self.bytes) in
    let self_lower = from_be_bytes 0 (take 16 (drop 16 self.bytes)) in
    let other_higher = from_be_bytes 0 (take 16 other.bytes) in
    let other_lower = from_be_bytes 0 (take 16 (drop 16 other.bytes)) in
    lexicographic (compare self_higher other_higher) (compare self_lower other_lower)

-- `PartialOrd for H256`, and `a > b` and `a <= b` by it
unfoldable pub partial_cmp : H256 → H256 → Option Ordering
partial_cmp self other = some (cmp self other)

unfoldable pub gt : H256 → H256 → Bool
unfolding partial_cmp
gt a b = elim (partial_cmp a b) [ some Ordering.gt ↦ true | _ ↦ false ]

unfoldable pub le : H256 → H256 → Bool
unfolding partial_cmp
le a b = elim (partial_cmp a b) [ none ↦ false | some Ordering.gt ↦ false | some _ ↦ true ]

-- A hexadecimal digit, and `{:>02x}` of a byte.
unfoldable pub hex_digit : ℕ → ℕ
hex_digit d = if ltb d 10 then b'0' + d else b'a' + (d - 10)

unfoldable pub hex_byte : ℕ → List ℕ
unfolding hex_digit
hex_byte b = hex_digit (b / 16) ∷ hex_digit (b % 16) ∷ []

unfoldable pub hex_bytes : List ℕ → List ℕ
unfolding hex_byte
hex_bytes [] = []
hex_bytes (b ∷ bs) = hex_byte b ++ hex_bytes bs

-- the byte at which `Display` starts, of `width` bytes
unfoldable pub display_start : ℕ → Option ℕ → ℕ
display_start width none = 0
display_start width (some precision) =
    if leb (width * 2) precision then 0 else width - precision / 2

-- `Display for H256`, by the precision of the format
unfoldable pub display : Option ℕ → H256 → List ℕ
unfolding hex_bytes display_start
display precision h = hex_bytes (drop (display_start 32 precision) h.bytes)

-- `Debug for H256`: the first and the last two bytes; 46 is a dot.
unfoldable pub debug : H256 → Run (List ℕ)
unfolding hex_byte
debug h = do
  first ← unwrap (get_elem? h.bytes 0)
  second ← unwrap (get_elem? h.bytes 1)
  before_last ← unwrap (get_elem? h.bytes 30)
  last ← unwrap (get_elem? h.bytes 31)
  ok (hex_byte first ++ hex_byte second ++ 46 ∷ 46 ∷ hex_byte before_last ++ hex_byte last)
