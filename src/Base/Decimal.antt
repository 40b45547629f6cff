-- ===== src/Base/Decimal.antt =====
-- `bigint.toString()` and `BigInt(text)`: the wire form of every amount.
pub mod RoundTrip
use Prim.Native.Nat.{ℕ, zero, suc, ◌+◌, ◌-◌, ◌*◌, ◌/◌, ◌%◌, ◌≤◌, ◌<◌}
use Prim.Native.String.{String, ◌++◌ as append}
use mathlib.Core.Path.{◌≡◌, refl, ap, ◌∙◌}
use mathlib.Core.Logic.{inl, inr}
use mathlib.Core.Bool.{Bool, true, false, ◌&&◌, ◌||◌}
use mathlib.Core.Option.{Option, none, some}
use mathlib.Core.List.{List, [], ◌∷◌, ◌++◌}
use native.Mathlib.Omega.{arith}
use bitfrost.Base.Tests.{ltb, leb, ◌==◌, if◌then◌else◌, Bool-cases}
use bitfrost.Base.Codes.{codes, is_digit, is_space}
use bitfrost.Base.Int.{ℤ, pos, negsuc}

digit : ℕ → String
digit d =
    if d == 0
    then "0"
    else if d == 1
    then "1"
    else if d == 2
    then "2"
    else if d == 3
    then "3"
    else if d == 4
    then "4"
    else if d == 5
    then "5"
    else if d == 6
    then "6"
    else if d == 7
    then "7"
    else if d == 8
    then "8"
    else "9"

-- One round for each digit; the number itself is fuel enough.
print : ℕ → ℕ → String
unfolding digit
print zero n = digit n
print (suc fuel) n =
    let more = append (print fuel (n / 10)) (digit (n % 10)) in if ltb n 10 then digit n else more

-- `n.toString()`.
unfoldable pub to_string : ℕ → String
unfolding print
to_string n = print n n

unfoldable pub int_to_string : ℤ → String
unfolding to_string
int_to_string (pos n) = to_string n
int_to_string (negsuc n) = append "-" (to_string (n + 1))

abbrev pub trim_start : List ℕ → List ℕ
trim_start [] = []
trim_start (c ∷ cs) = if is_space c then trim_start cs else c ∷ cs

abbrev pub keep_end : ℕ → List ℕ → List ℕ
keep_end c [] = if is_space c then [] else c ∷ []
keep_end c (d ∷ ds) = c ∷ d ∷ ds

abbrev pub trim_end : List ℕ → List ℕ
trim_end [] = []
trim_end (c ∷ cs) = keep_end c (trim_end cs)

-- The value of a character as a digit of the radix, if it is one.
abbrev digit_value : ℕ → Option ℕ
digit_value c =
    if is_digit c
    then some (c - b'0')
    else if leb b'a' c && leb c b'z'
    then some (c - 87)
    else if leb b'A' c && leb c b'Z'
    then some (c - 55)
    else none

abbrev pub push_digit : ℕ → Option ℕ → ℕ → Option ℕ
push_digit radix none c = none
push_digit radix (some acc) c = elim (digit_value c) [
  | none ↦ none
  | some d ↦ if ltb d radix then some (acc * radix + d) else none
]

unfoldable pub read_digits : ℕ → List ℕ → Option ℕ → Option ℕ
read_digits radix [] acc = acc
read_digits radix (c ∷ cs) acc = read_digits radix cs (push_digit radix acc c)

-- At least one digit.
abbrev pub read_number : ℕ → List ℕ → Option ℕ
read_number radix [] = none
read_number radix (c ∷ cs) = read_digits radix (c ∷ cs) (some 0)

abbrev pub negate : ℕ → ℤ
negate zero = pos 0
negate (suc n) = negsuc n

abbrev pub as_int : (ℕ → ℤ) → Option ℕ → Option ℤ
as_int f none = none
as_int f (some n) = some (f n)

-- `0x`, `0o`, `0b` or a decimal with an optional sign.
abbrev pub read_prefixed : ℕ → ℕ → List ℕ → Option ℤ
read_prefixed c d rest =
    if c == b'0' && (d == b'x' || d == b'X')
    then as_int pos (read_number 16 rest)
    else if c == b'0' && (d == b'o' || d == b'O')
    then as_int pos (read_number 8 rest)
    else if c == b'0' && (d == b'b' || d == b'B')
    then as_int pos (read_number 2 rest)
    else if c == b'-'
    then as_int negate (read_number 10 (d ∷ rest))
    else if c == b'+'
    then as_int pos (read_number 10 (d ∷ rest))
    else as_int pos (read_number 10 (c ∷ d ∷ rest))

abbrev pub read_trimmed : List ℕ → Option ℤ
read_trimmed [] = some (pos 0)
read_trimmed (c ∷ []) = as_int pos (read_number 10 (c ∷ []))
read_trimmed (c ∷ d ∷ rest) = read_prefixed c d rest

-- `BigInt(text)`; `none` is the SyntaxError.
unfoldable pub big_int : String → Option ℤ
unfolding read_digits
big_int s = read_trimmed (trim_end (trim_start (codes s)))
