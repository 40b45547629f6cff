-- ===== src/Base/Decimal/RoundTrip.antt =====
-- `BigInt(n.toString())` is `n`.
use Prim.Native.Nat.{ℕ, zero, suc, ◌+◌, ◌*◌, ◌/◌, ◌%◌, ◌≤◌, ◌<◌}
use mathlib.Core.Path.{◌≡◌, refl, ap, ◌∙◌}
use mathlib.Core.Logic.{◌≢◌, inl, inr}
use mathlib.Core.Bool.{true, false}
use mathlib.Core.Option.{Option, some}
use mathlib.Core.List.{List, [], ◌∷◌, ◌++◌}
use native.Mathlib.Omega.{arith}
use bitfrost.Base.Tests.{ltb, Bool-cases}
use bitfrost.Base.Lists.{All}
use bitfrost.Base.Codes.{codes, codes-append}
use bitfrost.Base.Int.{pos}
use bitfrost.Base.Decimal.{
  digit, print, to_string, big_int, read_digits, read_trimmed, trim_start, trim_end, push_digit,
}

codes-digit : (d : ℕ) → d < 10 → codes (digit d) ≡ (48 + d) ∷ []
unfolding digit
codes-digit zero h = refl
codes-digit (suc zero) h = refl
codes-digit (suc (suc zero)) h = refl
codes-digit (suc (suc (suc zero))) h = refl
codes-digit (suc (suc (suc (suc zero)))) h = refl
codes-digit (suc (suc (suc (suc (suc zero))))) h = refl
codes-digit (suc (suc (suc (suc (suc (suc zero)))))) h = refl
codes-digit (suc (suc (suc (suc (suc (suc (suc zero))))))) h = refl
codes-digit (suc (suc (suc (suc (suc (suc (suc (suc zero)))))))) h = refl
codes-digit (suc (suc (suc (suc (suc (suc (suc (suc (suc zero))))))))) h = refl
codes-digit (suc (suc (suc (suc (suc (suc (suc (suc (suc (suc d)))))))))) h = absurd (omega arith)

abbrev IsDigit : ℕ → Type 0
IsDigit c = (48 ≤ c) × (c < 58)

All-append : (xs : List ℕ) (c : ℕ) → All IsDigit xs → IsDigit c → All IsDigit (xs ++ c ∷ [])
All-append [] c h k = (k, tt)
All-append (x ∷ xs) c h k = (h.0, All-append xs c h.1 k)

read_digits-append :
    (xs : List ℕ) (c : ℕ) (acc : Option ℕ)
    → read_digits 10 (xs ++ c ∷ []) acc ≡ push_digit 10 (read_digits 10 xs acc) c
unfolding read_digits
read_digits-append [] c acc = refl
read_digits-append (x ∷ xs) c acc = read_digits-append xs c (push_digit 10 acc x)

push_digit_value : (acc d : ℕ) → d < 10 → push_digit 10 (some acc) (48 + d) ≡ some (acc * 10 + d)
push_digit_value acc d h = ground arith

-- The characters of a printed number.
codes-print_step :
    (fuel n : ℕ)
    → ltb n 10 ≡ false
    → codes (print (suc fuel) n) ≡ codes (print fuel (n / 10)) ++ (48 + n % 10) ∷ []
unfolding print
codes-print_step fuel n h = rw h (
    rw codes-append
      (ap (λ l. codes (print fuel (n / 10)) ++ l) (codes-digit (n % 10) (omega arith))))

codes-print_last : (fuel n : ℕ) → n < 10 → codes (print fuel n) ≡ (48 + n) ∷ []
unfolding print
codes-print_last zero n h = codes-digit n h
codes-print_last (suc fuel) n h = let e : ltb n 10 ≡ true = ground arith in rw e (codes-digit n h)

print-IsDigit : (fuel n : ℕ) → n ≤ fuel → All IsDigit (codes (print fuel n))
print-IsDigit zero n h = rw (codes-print_last zero n (omega arith)) (omega arith)
print-IsDigit (suc fuel) n h = elim (Bool-cases (ltb n 10)) [
  | inl small ↦ rw (codes-print_last (suc fuel) n (ground arith)) (ground arith)
  | inr more ↦ rw (codes-print_step fuel n more) (
      All-append (codes (print fuel (n / 10))) (48 + n % 10)
        (print-IsDigit fuel (n / 10) (ground arith)) (omega arith))
]

read_digits-print :
    (fuel n : ℕ) → n ≤ fuel → read_digits 10 (codes (print fuel n)) (some 0) ≡ some n
unfolding read_digits
read_digits-print zero n h =
    rw (codes-print_last zero n (omega arith)) (ground (arith, push_digit_value 0 n))
read_digits-print (suc fuel) n h = elim (Bool-cases (ltb n 10)) [
  | inl small ↦
      rw (codes-print_last (suc fuel) n (ground arith)) (ground (arith, push_digit_value 0 n))
  | inr more ↦ rw (codes-print_step fuel n more) (
      read_digits-append (codes (print fuel (n / 10))) (48 + n % 10) (some 0)
      ∙ ap (λ acc. push_digit 10 acc (48 + n % 10)) (read_digits-print fuel (n / 10) (ground arith))
      ∙ push_digit_value (n / 10) (n % 10) (omega arith)
      ∙ ap some (omega arith))
]

trim_start-digits : (xs : List ℕ) → All IsDigit xs → trim_start xs ≡ xs
trim_start-digits [] h = refl
trim_start-digits (x ∷ xs) h = ground arith

trim_end-digits : (xs : List ℕ) → All IsDigit xs → trim_end xs ≡ xs
trim_end-digits [] h = refl
trim_end-digits (x ∷ []) h = ground arith
trim_end-digits (x ∷ y ∷ ys) h = rw (trim_end-digits (y ∷ ys) h.1)

read_trimmed-digits :
    (xs : List ℕ) (n : ℕ)
    → All IsDigit xs
    → xs ≢ []
    → read_digits 10 xs (some 0) ≡ some n
    → read_trimmed xs ≡ some (pos n)
read_trimmed-digits [] n h ne e = absurd (ne refl)
read_trimmed-digits (x ∷ []) n h ne e = rw e
read_trimmed-digits (x ∷ y ∷ ys) n h ne e = ground arith

append-ne-nil : (xs : List ℕ) (c : ℕ) → (xs ++ c ∷ []) ≢ []
append-ne-nil [] c e = cc
append-ne-nil (x ∷ xs) c e = cc

print-ne-nil : (fuel n : ℕ) → n ≤ fuel → codes (print fuel n) ≢ []
print-ne-nil zero n h = rw (codes-print_last zero n (omega arith)) (λ e. cc)
print-ne-nil (suc fuel) n h = elim (Bool-cases (ltb n 10)) [
  | inl small ↦ rw (codes-print_last (suc fuel) n (ground arith)) (λ e. cc)
  | inr more ↦ rw (codes-print_step fuel n more) (append-ne-nil (codes (print fuel (n / 10))) _)
]

-- Reading back a printed number gives the number.
pub big_int-to_string : (n : ℕ) → big_int (to_string n) ≡ some (pos n)
unfolding big_int to_string
big_int-to_string n =
    let ds = print-IsDigit n n (omega arith) in
    rw (trim_start-digits (codes (print n n)) ds) (
      rw (trim_end-digits (codes (print n n)) ds) (
        read_trimmed-digits (codes (print n n)) n ds (print-ne-nil n n (omega arith))
          (read_digits-print n n (omega arith))))
