-- ===== src/Fnn/RoundTrip.antt =====
-- The numbers of bifrostd/src/fnn/codec.ts, written and read back.
use Prim.Native.String.{◌++◌ as append}
use bitfrost.Base.{
  ℕ, zero, suc, ◌+◌, ◌*◌, ◌/◌, ◌%◌, ◌≤◌, ◌<◌, ◌==◌, ◌≡◌, refl, ap, ◌∙◌, String, true, false, ◌||◌,
  Option, some, List, [], ◌∷◌, ◌++◌, ltb, arith, Bool-cases, inl, inr, if◌then◌else◌,
}
use bitfrost.Base.Codes.{codes, codes-append, is_lower_hex, all_codes}
use bitfrost.Base.Int.{ℤ, pos, negsuc, ltb_ℤ}
use bitfrost.Base.Decimal.{big_int, read_digits, push_digit, trim_start, trim_end, read_trimmed}
use bitfrost.Sdk.Types.{range_error}
use bitfrost.Orders.Ports.{ok, err}
use bitfrost.Orders.Preimage.{hex_digit}
use bitfrost.Rfq.Fallible.{◌>>=◌}
use bitfrost.Fnn.{print_hex, to_hex_string, encode_hex, decode_hex, is_hex_number}

abbrev hex_code : ℕ → ℕ
hex_code d = if ltb d 10 then 48 + d else 87 + d

codes-hex_digit : (d : ℕ) → d < 16 → codes (hex_digit d) ≡ hex_code d ∷ []
unfolding hex_digit
codes-hex_digit zero h = refl
codes-hex_digit (suc zero) h = refl
codes-hex_digit (suc (suc zero)) h = refl
codes-hex_digit (suc (suc (suc zero))) h = refl
codes-hex_digit (suc (suc (suc (suc zero)))) h = refl
codes-hex_digit (suc (suc (suc (suc (suc zero))))) h = refl
codes-hex_digit (suc (suc (suc (suc (suc (suc zero)))))) h = refl
codes-hex_digit (suc (suc (suc (suc (suc (suc (suc zero))))))) h = refl
codes-hex_digit (suc (suc (suc (suc (suc (suc (suc (suc zero)))))))) h = refl
codes-hex_digit (suc (suc (suc (suc (suc (suc (suc (suc (suc zero))))))))) h = refl
codes-hex_digit (suc (suc (suc (suc (suc (suc (suc (suc (suc (suc zero)))))))))) h = refl
codes-hex_digit (suc (suc (suc (suc (suc (suc (suc (suc (suc (suc (suc zero))))))))))) h = refl
codes-hex_digit (suc (suc (suc (suc (suc (suc (suc (suc (suc (suc (suc (suc zero)))))))))))) h =
    refl
codes-hex_digit (suc (suc (suc (suc (suc (suc (suc (suc (suc (suc (suc (suc (suc zero)))))))))))))
      h =
    refl
codes-hex_digit
      (suc (suc (suc (suc (suc (suc (suc (suc (suc (suc (suc (suc (suc (suc zero)))))))))))))) h =
    refl
codes-hex_digit
      (suc (suc (suc (suc (suc (suc (suc (suc (suc (suc (suc (suc (suc (suc (suc zero)))))))))))))))
      h =
    refl
codes-hex_digit
      (suc
        (suc (suc (suc (suc (suc (suc (suc (suc (suc (suc (suc (suc (suc (suc (suc d))))))))))))))))
      h =
    absurd (omega arith)

push_hex : (acc d : ℕ) → d < 16 → push_digit 16 (some acc) (hex_code d) ≡ some (acc * 16 + d)
push_hex acc d h = ground arith

read_digits-append :
    (xs : List ℕ) (c : ℕ) (acc : Option ℕ)
    → read_digits 16 (xs ++ c ∷ []) acc ≡ push_digit 16 (read_digits 16 xs acc) c
unfolding read_digits
read_digits-append [] c acc = refl
read_digits-append (x ∷ xs) c acc = read_digits-append xs c (push_digit 16 acc x)

step_codes :
    (fuel n : ℕ)
    → ltb n 16 ≡ false
    → codes (print_hex (suc fuel) n) ≡ codes (print_hex fuel (n / 16)) ++ hex_code (n % 16) ∷ []
unfolding print_hex
step_codes fuel n h = rw h (
    rw codes-append
      (ap (λ l. codes (print_hex fuel (n / 16)) ++ l) (codes-hex_digit (n % 16) (omega arith))))

last_codes : (fuel n : ℕ) → n < 16 → codes (print_hex fuel n) ≡ hex_code n ∷ []
unfolding print_hex
last_codes zero n h = codes-hex_digit n h
last_codes (suc fuel) n h = let e : ltb n 16 ≡ true = ground arith in rw e (codes-hex_digit n h)

read_back : (fuel n : ℕ) → n ≤ fuel → read_digits 16 (codes (print_hex fuel n)) (some 0) ≡ some n
unfolding read_digits
read_back zero n h = rw (last_codes zero n (omega arith)) (ground (arith, push_hex 0 n))
read_back (suc fuel) n h = elim (Bool-cases (ltb n 16)) [
  | inl small ↦ rw (last_codes (suc fuel) n (ground arith)) (ground (arith, push_hex 0 n))
  | inr more ↦ rw (step_codes fuel n more) (
      read_digits-append (codes (print_hex fuel (n / 16))) (hex_code (n % 16)) (some 0)
      ∙ ap (λ acc. push_digit 16 acc (hex_code (n % 16))) (read_back fuel (n / 16) (ground arith))
      ∙ push_hex (n / 16) (n % 16) (omega arith)
      ∙ ap some (omega arith))
]

-- Hex digits, the first of them not 0.
abbrev Leads : List ℕ → Type 0
Leads [] = ⊥
Leads (c ∷ cs) = (c == b'0' ≡ false) × (is_lower_hex c ≡ true) × (all_codes is_lower_hex cs ≡ true)

all_hex-append :
    (xs : List ℕ) (c : ℕ)
    → all_codes is_lower_hex xs ≡ true
    → is_lower_hex c ≡ true
    → all_codes is_lower_hex (xs ++ c ∷ []) ≡ true
all_hex-append [] c h k = ground (arith, k)
all_hex-append (x ∷ xs) c h k = ground (arith, h, k, all_hex-append xs c)

Leads-append : (xs : List ℕ) (c : ℕ) → Leads xs → is_lower_hex c ≡ true → Leads (xs ++ c ∷ [])
Leads-append [] c h k = absurd h
Leads-append (x ∷ xs) c (a, b, d) k = (a, b, all_hex-append xs c d k)

hex_code_lower : (d : ℕ) → d < 16 → is_lower_hex (hex_code d) ≡ true
hex_code_lower d h = ground arith

hex_code_full : (d : ℕ) → 0 < d → d < 16 → hex_code d == b'0' ≡ false
hex_code_full d p h = ground arith

printed-Leads : (fuel n : ℕ) → 0 < n → n ≤ fuel → Leads (codes (print_hex fuel n))
printed-Leads zero n p h = absurd (omega (arith, p, h))
printed-Leads (suc fuel) n p h = elim (Bool-cases (ltb n 16)) [
  | inl small ↦
      let few : n < 16 = ground (arith, small) in
      rw (last_codes (suc fuel) n few) (hex_code_full n p few, hex_code_lower n few, refl)
  | inr more ↦ rw (step_codes fuel n more) (
      Leads-append (codes (print_hex fuel (n / 16))) (hex_code (n % 16))
        (printed-Leads fuel (n / 16) (ground arith) (ground arith))
        (hex_code_lower (n % 16) (omega arith)))
]

trim_end-hex : (cs : List ℕ) → all_codes is_lower_hex cs ≡ true → trim_end cs ≡ cs
trim_end-hex [] h = refl
trim_end-hex (c ∷ []) h = ground (arith, h)
trim_end-hex (c ∷ d ∷ cs) h = rw (trim_end-hex (d ∷ cs) (ground (arith, h))) refl

is_hex_number-Leads : (cs : List ℕ) → Leads cs → is_hex_number cs ≡ true
is_hex_number-Leads [] h = absurd h
is_hex_number-Leads (c ∷ []) (a, b, d) = b
is_hex_number-Leads (c ∷ d ∷ cs) (a, b, e) = rw (a, b, e) refl

-- What is read of "0x" and these digits.
abbrev ReadsAs : List ℕ → ℕ → Type 0
ReadsAs cs n =
    (is_hex_number cs ≡ true) × (trim_end cs ≡ cs) × (read_digits 16 cs (some 0) ≡ some n)

all_hex-Leads : (cs : List ℕ) → Leads cs → all_codes is_lower_hex cs ≡ true
all_hex-Leads [] h = absurd h
all_hex-Leads (c ∷ cs) (a, b, d) = rw (b, d) refl

printed-ReadsAs : (n : ℕ) → ReadsAs (codes (to_hex_string n)) n
unfolding to_hex_string
printed-ReadsAs zero =
    rw (last_codes zero zero (omega arith)) (refl, refl, unfold read_digits in refl)
printed-ReadsAs (suc n) =
    let l = printed-Leads (suc n) (suc n) (omega arith) (omega arith) in
    let cs = codes (print_hex (suc n) (suc n)) in
    (
      is_hex_number-Leads cs l,
      trim_end-hex cs (all_hex-Leads cs l),
      read_back (suc n) (suc n) (omega arith),
    )

prefixed :
    (cs : List ℕ) (n : ℕ)
    → ReadsAs cs n
    → read_trimmed (trim_end (trim_start (b'0' ∷ b'x' ∷ cs))) ≡ some (pos n)
prefixed [] n (a, b, d) = absurd (cc (a))
prefixed (c ∷ cs) n (a, b, d) = rw (b, d) refl

big_int-prefixed :
    (t : String) (n : ℕ) → ReadsAs (codes t) n → big_int (append "0x" t) ≡ some (pos n)
unfolding big_int
big_int-prefixed t n r = rw (codes-append "0x" t) (prefixed (codes t) n r)

decoded :
    (t : String) (n max : ℕ)
    → ReadsAs (codes t) n
    → ltb max n ≡ false
    → decode_hex (append "0x" t) max ≡ ok (pos n)
unfolding decode_hex ◌>>=◌
decoded t n max r small =
    let fits : ltb_ℤ (pos max) (pos n) ≡ false = ground (arith, small) in
    rw (big_int-prefixed t n r, codes-append "0x" t, r.0, fits) refl

-- A text that the codec wrote is read as the integer it was written for.
pub decode-encode :
    (n : ℤ) (max : ℕ) (s : String) → encode_hex n max ≡ ok s → decode_hex s max ≡ ok n
unfolding encode_hex
decode-encode (negsuc n) max s h = absurd (cc (h))
decode-encode (pos n) max s h = elim (Bool-cases (ltb max n)) [
  | inl large ↦ absurd (ground (arith, large, h))
  | inr small ↦
      let same : append "0x" (to_hex_string n) ≡ s = ground (arith, small, h) in
      rw (← same) (decoded (to_hex_string n) n max (printed-ReadsAs n) small)
]

-- What the node's codec writes it reads back: for every integer, encoding it and decoding the text
-- under the same bound returns the integer where it is from 0 to the bound, and is the RangeError
-- where it is not.
pub hex_roundtrip :
    (n : ℤ) (max : ℕ)
    → (encode_hex n max >>= λ s. decode_hex s max)
      ≡ (if ltb_ℤ n (pos 0) || ltb_ℤ (pos max) n then err range_error else ok n)
unfolding encode_hex ◌>>=◌
hex_roundtrip (negsuc n) max =
    let below : ltb_ℤ (negsuc n) (pos 0) ≡ true = ground arith in rw below refl
hex_roundtrip (pos n) max =
    let above : ltb_ℤ (pos n) (pos 0) ≡ false = ground arith in
    elim (Bool-cases (ltb max n)) [
      | inl large ↦
          let over : ltb_ℤ (pos max) (pos n) ≡ true = ground (arith, large) in
          rw (large, above, over) refl
      | inr small ↦
          let fits : ltb_ℤ (pos max) (pos n) ≡ false = ground (arith, small) in
          rw (small, above, fits) (decoded (to_hex_string n) n max (printed-ReadsAs n) small)
    ]
