-- ===== src/Fnn.antt =====
-- bifrostd/src/fnn/codec.ts: the hexadecimal numbers on the wire of the Fiber node.
pub mod RoundTrip
use Prim.Native.String.{◌++◌ as append}
use bitfrost.Base.{
  ℕ, zero, suc, ◌-◌, ◌^◌, ◌/◌, ◌%◌, ◌==◌, String, Bool, true, false, not, ◌&&◌, List, [], ◌∷◌, ltb,
  if◌then◌else◌,
}
use bitfrost.Base.Codes.{codes, is_lower_hex, all_codes}
use bitfrost.Base.Int.{ℤ, pos, negsuc, ltb_ℤ}
use bitfrost.Base.Decimal.{big_int}
use bitfrost.Sdk.Types.{type_error, range_error, syntax_error}
use bitfrost.Orders.Ports.{Result, ok, err}
use bitfrost.Orders.Preimage.{hex_digit}
use bitfrost.Rfq.Fallible.{◌>>=◌, attempt}

abbrev pub u64_max : ℕ
u64_max = 2 ^ 64 - 1

abbrev pub u128_max : ℕ
u128_max = 2 ^ 128 - 1

-- One round for each digit; the number itself is fuel enough.
print_hex : ℕ → ℕ → String
unfolding hex_digit
print_hex zero n = hex_digit n
print_hex (suc fuel) n =
    let more = append (print_hex fuel (n / 16)) (hex_digit (n % 16)) in
    if ltb n 16 then hex_digit n else more

-- `n.toString(16)`.
unfoldable pub to_hex_string : ℕ → String
unfolding print_hex
to_hex_string n = print_hex n n

unfoldable pub encode_hex : ℤ → ℕ → Result String
unfolding to_hex_string
encode_hex (negsuc n) max = err range_error
encode_hex (pos n) max = if ltb max n then err range_error else ok (append "0x" (to_hex_string n))

-- `0|[1-9a-f][0-9a-f]*`.
abbrev is_hex_number : List ℕ → Bool
is_hex_number [] = false
is_hex_number (c ∷ []) = is_lower_hex c
is_hex_number (c ∷ d ∷ cs) = not (c == b'0') && is_lower_hex c && all_codes is_lower_hex (d ∷ cs)

-- `HEX_RE`.
abbrev is_hex : List ℕ → Bool
is_hex (c ∷ d ∷ cs) = c == b'0' && d == b'x' && is_hex_number cs
is_hex _ = false

unfoldable pub decode_hex : String → ℕ → Result ℤ
unfolding big_int ◌>>=◌
decode_hex s max = if not (is_hex (codes s)) then err type_error else do
  n ← attempt (big_int s) syntax_error
  if ltb_ℤ (pos max) n then err range_error else ok n

abbrev pub encode_u64_hex : ℤ → Result String
encode_u64_hex n = encode_hex n u64_max

abbrev pub decode_u64_hex : String → Result ℤ
decode_u64_hex s = decode_hex s u64_max

abbrev pub encode_u128_hex : ℤ → Result String
encode_u128_hex n = encode_hex n u128_max

abbrev pub decode_u128_hex : String → Result ℤ
decode_u128_hex s = decode_hex s u128_max
