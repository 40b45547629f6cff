-- ===== src/Orders/Preimage.antt =====
-- `hexPreimageMatches` (bifrostd/src/orders/engine.ts) and `assertHash256`
-- (bifrostd/src/adapters/types.ts). The hash function is a parameter.
use Prim.Native.String.{◌++◌ as append}
use bitfrost.Base.{
  ℕ, ◌+◌, ◌-◌, ◌*◌, ◌/◌, ◌%◌, String, Bool, false, ◌&&◌, Option, none, some, List, [], ◌∷◌, leb,
  ◌==◌, str_eq, if◌then◌else◌, length,
}
use bitfrost.Base.Codes.{codes, drop_two, is_digit, is_lower_hex, all_codes}

abbrev pub nibble : ℕ → Option ℕ
nibble c =
    if is_digit c
    then some (c - b'0')
    else if leb b'a' c && leb c b'f'
    then some (c - 87)
    else if leb b'A' c && leb c b'F'
    then some (c - 55)
    else none

abbrev push_byte : Option ℕ → Option ℕ → List ℕ → List ℕ
push_byte none low rest = []
push_byte (some h) none rest = []
push_byte (some h) (some l) rest = (h * 16 + l) ∷ rest

-- `Buffer.from(text, "hex")`: it stops at the first pair that is not two hex digits.
unfoldable pub from_hex : List ℕ → List ℕ
from_hex [] = []
from_hex (c ∷ []) = []
from_hex (c ∷ d ∷ cs) = push_byte (nibble c) (nibble d) (from_hex cs)

unfoldable pub hex_digit : ℕ → String
hex_digit d =
    if d == 0
    then "0"
    else if d == 1
    then "1"
    else if d == 2
    then "2"
    else if d == 3
    then "3"
    else if d == 4
    then "4"
    else if d == 5
    then "5"
    else if d == 6
    then "6"
    else if d == 7
    then "7"
    else if d == 8
    then "8"
    else if d == 9
    then "9"
    else if d == 10
    then "a"
    else if d == 11
    then "b"
    else if d == 12
    then "c"
    else if d == 13
    then "d"
    else if d == 14
    then "e"
    else "f"

-- `bytesToHex`, `Buffer.toString("hex")`.
unfoldable pub to_hex : List ℕ → String
unfolding hex_digit
to_hex [] = ""
to_hex (b ∷ bs) = append (hex_digit (b / 16)) (append (hex_digit (b % 16)) (to_hex bs))

unfoldable pub hex_preimage_matches : (List ℕ → List ℕ) → String → String → Bool
unfolding from_hex to_hex
hex_preimage_matches sha256 preimage hash =
    str_eq (append "0x" (to_hex (sha256 (from_hex (codes (drop_two preimage)))))) hash

abbrev hash_codes : List ℕ → Bool
hash_codes [] = false
hash_codes (c ∷ []) = false
hash_codes (c ∷ d ∷ cs) = c == b'0' && (d == b'x' && (length cs == 64 && all_codes is_lower_hex cs))

-- `/^0x[0-9a-f]{64}$/`.
unfoldable pub is_hash256 : String → Bool
is_hash256 s = hash_codes (codes s)
