-- ===== src/Hash/Text.antt =====
-- The text of a hash: what `Display` in types/hash.rs loses, and what `Debug` shows.
use native.Mathlib.Omega.{arith}
use final.Base.{
  ℕ, ◌+◌, ◌-◌, ◌*◌, ◌/◌, ◌%◌, ◌<◌, ◌≡◌, refl, ap, sym, ◌∙◌, Option, none, List, [], ◌∷◌, All, leb,
  if◌then◌else◌, drop, zero, suc,
}
use final.Data.{H256}
use final.Hash.{hex_digit, hex_bytes, display_start, display}

-- The value of a hexadecimal digit, and the bytes of a hexadecimal text.
unfoldable pub digit_value : ℕ → ℕ
digit_value c = if leb b'a' c then c - b'a' + 10 else c - b'0'

unfoldable pub from_hex : List ℕ → List ℕ
unfolding digit_value
from_hex [] = []
from_hex (c ∷ []) = []
from_hex (c ∷ d ∷ text) = (digit_value c * 16 + digit_value d) ∷ from_hex text

digit_value-hex_digit : (d : ℕ) → d < 16 → digit_value (hex_digit d) ≡ d
unfolding digit_value hex_digit
digit_value-hex_digit d small = ground (arith, small)

from_hex-hex_bytes : (bs : List ℕ) → All (λ b. b < 256) bs → from_hex (hex_bytes bs) ≡ bs
unfolding from_hex hex_bytes
from_hex-hex_bytes [] small = refl
from_hex-hex_bytes (b ∷ bs) (low, small) =
    let high = digit_value-hex_digit (b / 16) (omega (arith, low)) in
    let rest = digit_value-hex_digit (b % 16) (omega arith) in
    let byte : digit_value (hex_digit (b / 16)) * 16 + digit_value (hex_digit (b % 16)) ≡ b =
      omega (arith, high, rest) in
    λ i. byte i ∷ from_hex-hex_bytes bs small i

drop-All : (n : ℕ) (bs : List ℕ) → All (λ b. b < 256) bs → All (λ b. b < 256) (drop n bs)
drop-All zero bs small = small
drop-All (suc n) [] small = tt
drop-All (suc n) (b ∷ bs) (low, small) = drop-All n bs small

-- With or without a precision, the text of a hash gives back the bytes that it shows: all of them
-- from the one at which `Display` starts.
pub from_hex-display :
    (precision : Option ℕ) (h : H256)
    → All (λ b. b < 256) h.bytes
    → from_hex (display precision h) ≡ drop (display_start 32 precision) h.bytes
unfolding display
from_hex-display precision h small =
    from_hex-hex_bytes (drop (display_start 32 precision) h.bytes)
      (drop-All (display_start 32 precision) h.bytes small)

-- Two hashes with the same text are the same hash.
pub display-injective :
    (g h : H256)
    → All (λ b. b < 256) g.bytes
    → All (λ b. b < 256) h.bytes
    → display none g ≡ display none h
    → g ≡ h
unfolding display_start
display-injective g h small small' same =
    let bytes : g.bytes ≡ h.bytes =
      sym (from_hex-display none g small) ∙ ap from_hex same ∙ from_hex-display none h small' in
    λ i. record { bytes = bytes i }
