-- ===== src/Rfq/Rational.antt =====
-- bifrostd/src/rfq/rational.ts. A rate that `rational` has admitted is not negative, so its parts are
-- natural numbers; `none` is the thrown RangeError.
use Prim.Native.Nat.{◌∣◌}
use native.Mathlib.Nat.{
  dvd-zero, dvd_refl, dvd-mod_iff, mod-lt, div-mul_cancel, mul-div_cancel_left,
}
use bitfrost.Base.{
  ℕ, zero, suc, ◌+◌, ◌*◌, ◌/◌, ◌%◌, ◌≤◌, ◌<◌, ◌≡◌, sym, ap, ◌∙◌, Bool, true, false, Option, none,
  some, ◌==◌, arith, if◌then◌else◌,
}
use bitfrost.Base.Int.{ℤ, pos, negsuc, ◌+ℤ◌}

pub record Rational : Type 0 where
  pub num : ℕ
  pub den : ℕ

unfoldable pub rational : ℤ → ℤ → Option Rational
rational (pos n) (pos d) = if d == 0 then none else some (record { num = n; den = d })
rational _ _ = none

-- `while (b !== 0n) [a, b] = [b, a % b]`, on fuel.
gcd_on : ℕ → ℕ → ℕ → ℕ
gcd_on zero a b = a
gcd_on (suc fuel) a zero = a
gcd_on (suc fuel) a (suc b) = gcd_on fuel (suc b) (a % suc b)

-- The second argument falls with each turn, so it is fuel enough.
unfoldable pub gcd : ℕ → ℕ → ℕ
unfolding gcd_on
gcd a b = gcd_on b a b

abbrev is_zero : ℕ → Bool
is_zero zero = true
is_zero (suc n) = false

unfoldable pub normalize : Rational → Rational
unfolding gcd
normalize r =
    if is_zero r.num
    then record { num = 0; den = 1 }
    else let g = gcd r.num r.den in record { num = r.num / g; den = r.den / g }

unfoldable pub mul_div_floor : ℕ → ℕ → ℕ → Option ℕ
mul_div_floor value num den = if den == 0 then none else some (value * num / den)

unfoldable pub mul_div_ceil : ℕ → ℕ → ℕ → Option ℕ
mul_div_ceil value num den =
    if den == 0
    then none
    else let p = value * num in some (if p % den == 0 then p / den else p / den + 1)

abbrev scaled : Rational → ℤ → Option Rational
scaled r (negsuc f) = none
scaled r (pos f) =
    if f == 0 then none else some (normalize (record { num = r.num * f; den = r.den * 1_000_000 }))

unfoldable pub apply_ppm : Rational → ℤ → Option Rational
unfolding normalize
apply_ppm r delta = scaled r (pos 1_000_000 +ℤ delta)

gcd_on-divides : (fuel a b : ℕ) → b ≤ fuel → (gcd_on fuel a b ∣ a) × (gcd_on fuel a b ∣ b)
unfolding gcd_on
gcd_on-divides zero a zero h = (dvd_refl a, dvd-zero a)
gcd_on-divides zero a (suc b) h = absurd (omega (arith, h))
gcd_on-divides (suc fuel) a zero h = (dvd_refl a, dvd-zero a)
gcd_on-divides (suc fuel) a (suc b) h =
    let (x, y) =
      gcd_on-divides fuel (suc b) (a % suc b)
        (omega (arith, h, mod-lt a {m = suc b} (omega arith))) in
    ((dvd-mod_iff _ x).0 y, x)

pub gcd-divides : (a b : ℕ) → (gcd a b ∣ a) × (gcd a b ∣ b)
unfolding gcd
gcd-divides a b = gcd_on-divides b a b (omega arith)

left_pos : (a g d : ℕ) → a * g ≡ d → 0 < d → 0 < a
left_pos zero g d e h = absurd (omega (arith, e, h))
left_pos (suc a) g d e h = omega arith

regroup : (d' g n' n : ℕ) → n' * g ≡ n → d' * g * n' ≡ d' * n
regroup d' g n' n e = grind (arith, e)

exact_quotient : (g n d : ℕ) → g ∣ n → g ∣ d → 0 < d → (0 < d / g) × (d * (n / g) / (d / g) ≡ n)
exact_quotient g n d gn gd h =
    let e : d / g * g ≡ d = div-mul_cancel g gd in
    let some_left : 0 < d / g = left_pos (d / g) g d e h in
    let same : d * (n / g) ≡ d / g * n =
      ap (λ x. x * (n / g)) (sym e) ∙ regroup (d / g) g (n / g) n (div-mul_cancel g gn) in
    (some_left, ap (λ x. x / (d / g)) same ∙ mul-div_cancel_left n some_left)

-- What `normalize` makes of `n` per `d` turns `d` into exactly `n` again.
pub exact_rate :
    (n d : ℕ)
    → 0 < d
    → (0 < (normalize (record { num = n; den = d })).den)
      × (d
            * (normalize (record { num = n; den = d })).num
            / (normalize (record { num = n; den = d })).den
          ≡ n)
unfolding normalize
exact_rate zero d h = (omega arith, omega arith)
exact_rate (suc n) d h =
    let (gn, gd) = gcd-divides (suc n) d in exact_quotient (gcd (suc n) d) (suc n) d gn gd h
