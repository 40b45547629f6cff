-- ===== src/Rfq/Minimal.antt =====
-- The search for the smallest gross amount in `QuoteService.quote`
-- (bifrostd/src/rfq/quote-service.ts), whose two `while` loops are `walk_up` and `walk_down`.
use bitfrost.Base.{
  ℕ, zero, suc, ◌+◌, ◌-◌, ◌*◌, ◌/◌, ◌%◌, ◌≤◌, ◌<◌, ◌≡◌, refl, ◌&&◌, Option, none, some, leb, ltb,
  ◌==◌, arith, if◌then◌else◌, inl, inr, Bool-cases, Option-cases,
}
use native.Mathlib.Nat.{mod-lt, div-add-mod'}
use bitfrost.Rfq.Rational.{mul_div_ceil}

abbrev pub ppm_scale : ℕ
ppm_scale = 1_000_000

-- What is left of a gross amount after the hub's fee.
unfoldable pub net : ℕ → ℕ → ℕ
net ppm gross = gross - gross * ppm / 1_000_000

-- `while (net(gross) < target) gross += 1n`, on fuel.
unfoldable pub walk_up : ℕ → ℕ → ℕ → ℕ → ℕ
unfolding net
walk_up zero ppm target gross = gross
walk_up (suc fuel) ppm target gross =
    let rest = walk_up fuel ppm target (gross + 1) in
    if ltb (net ppm gross) target then rest else gross

-- `while (gross > 1n && net(gross - 1n) >= target) gross -= 1n`.
unfoldable pub walk_down : ℕ → ℕ → ℕ → ℕ
unfolding net
walk_down ppm target zero = zero
walk_down ppm target (suc gross) =
    let rest = walk_down ppm target gross in
    if ltb 0 gross && leb target (net ppm gross) then rest else suc gross

abbrev walked : ℕ → ℕ → Option ℕ → Option ℕ
walked ppm target none = none
walked ppm target (some gross) = some (walk_down ppm target (walk_up (suc target) ppm target gross))

-- `none` is the thrown RangeError of a fee of 1,000,000 ppm. The search is modelled for fees below
-- that; for a larger one, where the source divides by a negative number, this is `none` too.
unfoldable pub minimal_gross : ℕ → ℕ → Option ℕ
unfolding walk_up walk_down
minimal_gross ppm target = walked ppm target (mul_div_ceil target 1_000_000 (1_000_000 - ppm))

exactly : (c q r d p : ℕ) → q * d + r ≡ p → c ≡ q → r ≡ 0 → p ≤ c * d
exactly c q r d p e same none_left = rw (← e, same, none_left) (omega arith)

rounded : (c q r d p : ℕ) → q * d + r ≡ p → r < d → c ≡ q + 1 → p ≤ c * d
rounded c q r d p e small next_up = rw (← e, next_up) (grind (arith, small))

ceil_enough : (value num den c : ℕ) → mul_div_ceil value num den ≡ some c → value * num ≤ c * den
unfolding mul_div_ceil
ceil_enough value num zero c h = absurd (ground (arith, h))
ceil_enough value num (suc d) c h =
    let p = value * num in
    elim (Bool-cases (p % suc d == 0)) [
      | inl e ↦
          exactly c (p / suc d) (p % suc d) (suc d) p (div-add-mod' p (suc d))
            (ground (arith, h, e)) (ground (arith, e))
      | inr e ↦
          rounded c (p / suc d) (p % suc d) (suc d) p (div-add-mod' p (suc d))
            (mod-lt p {m = suc d} (omega arith)) (ground (arith, h, e))
    ]

shares : (c a b n : ℕ) → a + b ≡ n → c * a + c * b ≡ n * c
shares c a b n h = grind (arith, h)

parts : (c ppm : ℕ) → ppm < 1_000_000 → c * ppm + c * (1_000_000 - ppm) ≡ 1_000_000 * c
parts c ppm h = shares c ppm (1_000_000 - ppm) 1_000_000 (omega (arith, h))

-- The first gross amount already covers the target.
pub start-covers :
    (ppm target c : ℕ)
    → ppm < 1_000_000
    → mul_div_ceil target 1_000_000 (1_000_000 - ppm) ≡ some c
    → target ≤ net ppm c
unfolding net
start-covers ppm target c small h =
    omega (arith, ceil_enough target 1_000_000 (1_000_000 - ppm) c h, parts c ppm small)

-- So the loop upwards makes no turn, whatever its fuel.
pub walk_up-idle : (fuel ppm target c : ℕ) → target ≤ net ppm c → walk_up fuel ppm target c ≡ c
unfolding walk_up
walk_up-idle zero ppm target c h = refl
walk_up-idle (suc fuel) ppm target c h = ground (arith, h)

net_step : (ppm g : ℕ) → net ppm (suc g) ≤ suc (net ppm g)
unfolding net
net_step ppm g = omega arith

pub walk_down-covers :
    (ppm target g : ℕ) → target ≤ net ppm g → target ≤ net ppm (walk_down ppm target g)
unfolding walk_down
walk_down-covers ppm target zero h = h
walk_down-covers ppm target (suc g) h = ground (arith, walk_down-covers ppm target g)

pub walk_down-tight :
    (ppm target g : ℕ) → target ≤ net ppm g → net ppm (walk_down ppm target g) ≤ target + 1
unfolding walk_down net
walk_down-tight ppm target zero h = omega arith
walk_down-tight ppm target (suc g) h = ground (arith, walk_down-tight ppm target g, net_step ppm g)

fee-le : (ppm gross : ℕ) → ppm < 1_000_000 → gross * ppm / 1_000_000 ≤ gross
fee-le ppm gross small = omega (arith, parts gross ppm small)

fee_below_all :
    (value ppm c : ℕ) → mul_div_ceil value 1_000_000 (1_000_000 - ppm) ≡ some c → ppm < 1_000_000
unfolding mul_div_ceil
fee_below_all value ppm c h = ground (arith, h)

tight :
    (ppm target gross found : ℕ)
    → ppm < 1_000_000
    → found ≡ gross
    → target ≤ net ppm found
    → net ppm found ≤ target + 1
    → (target + gross * ppm / 1_000_000 ≤ gross) × (gross ≤ target + gross * ppm / 1_000_000 + 1)
unfolding net
tight ppm target gross found small e low high =
    rw (← e)
      (omega (arith, low, fee-le ppm found small), omega (arith, high, fee-le ppm found small))

-- The gross amount that is found covers the target and the fee, and at most 1 more.
pub minimal_gross-tight :
    (ppm target gross : ℕ)
    → minimal_gross ppm target ≡ some gross
    → (target + gross * ppm / 1_000_000 ≤ gross) × (gross ≤ target + gross * ppm / 1_000_000 + 1)
unfolding minimal_gross net
minimal_gross-tight ppm target gross h =
    elim (Option-cases (mul_div_ceil target 1_000_000 (1_000_000 - ppm))) [
      | inl e ↦ absurd (cc (h, e))
      | inr (c, e) ↦
          let small = fee_below_all target ppm c e in
          let idle = walk_up-idle (suc target) ppm target c (start-covers ppm target c small e) in
          tight ppm target gross (walk_down ppm target c) small (cc (h, e, idle))
            (walk_down-covers ppm target c (start-covers ppm target c small e))
            (walk_down-tight ppm target c (start-covers ppm target c small e))
    ]
