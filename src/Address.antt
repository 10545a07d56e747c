-- ===== src/Address.antt =====
-- types/address.rs: the address of a public key.
use final.Base.{
  ℕ, ◌-◌, ◌/◌, ◌%◌, ◌^◌, List, [], ◌∷◌, Option, length, drop, ltb, if◌then◌else◌, Run, ok, panic,
  ◌++◌, ◌∷◌, get_elem?, unwrap, ◌>>=◌,
}
use final.Data.{Address}
use final.External.{External}
use final.Hash.{hex_byte, hex_bytes, display_start}

-- `From` an array of 20 bytes
abbrev pub from_array : List ℕ → Address
from_array input = record { bytes = input }

-- The last 20 bytes of the digest; the slice panics on a shorter digest.
unfoldable pub last_20_bytes : List ℕ → Run Address
last_20_bytes digest =
    if ltb (length digest) 20 then panic else ok (from_array (drop (length digest - 20) digest))

unfoldable pub from_public_key_bytes : External → List ℕ → Run Address
unfolding last_20_bytes
from_public_key_bytes x bytes = last_20_bytes (x.sha256 bytes)

-- `u32::to_be_bytes`
unfoldable pub to_be_bytes : ℕ → List ℕ
to_be_bytes n = (n / 2 ^ 24) % 256 ∷ (n / 2 ^ 16) % 256 ∷ (n / 2 ^ 8) % 256 ∷ n % 256 ∷ []

-- `Display for Address`
unfoldable pub display : Option ℕ → Address → List ℕ
unfolding hex_bytes display_start
display precision a = hex_bytes (drop (display_start 20 precision) a.bytes)

-- `Debug for Address`
unfoldable pub debug : Address → Run (List ℕ)
unfolding hex_byte
debug a = do
  first ← unwrap (get_elem? a.bytes 0)
  second ← unwrap (get_elem? a.bytes 1)
  before_last ← unwrap (get_elem? a.bytes 18)
  last ← unwrap (get_elem? a.bytes 19)
  ok (hex_byte first ++ hex_byte second ++ 46 ∷ 46 ∷ hex_byte before_last ++ hex_byte last)
