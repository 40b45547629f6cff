-- ===== src/Rfq/Honest.antt =====
-- The quotes of bifrostd/src/rfq/quote-service.ts pass the client's checks in sdk/src/verify.ts.
use mathlib.Core.Path.{subst}
use bitfrost.Base.{
  ℕ, zero, suc, ◌+◌, ◌-◌, ◌*◌, ◌/◌, ◌≤◌, ◌<◌, ◌≡◌, refl, false, ◌||◌, some, leb, arith, Bool-cases,
  Option-cases, inl, inr,
}
use bitfrost.Base.Int.{pos, ◌-ℤ◌, ◌*ℤ◌, quot_ℤ, ltb_ℤ}
use bitfrost.Orders.Ports.{ok}
use bitfrost.Rfq.Fallible.{◌>>=◌, refuse, when}
use bitfrost.Rfq.Rational.{Rational, normalize, mul_div_floor, mul_div_ceil, exact_rate}
use bitfrost.Rfq.Minimal.{minimal_gross, minimal_gross-tight}
use bitfrost.Rfq.Service.{Amounts, give_amounts, get_amounts}
use bitfrost.Sdk.Types.{pricing_unavailable}
use bitfrost.Sdk.Verify.{verify_amounts}

pos_sub : (a b : ℕ) → b ≤ a → pos a -ℤ pos b ≡ pos (a - b)
unfolding ◌-ℤ◌
pos_sub a b h = ground (arith, h)

small_difference :
    (k : ℕ)
    → k ≤ 1
    → when
        (ltb_ℤ (pos k) (pos 0) || ltb_ℤ (pos 1) (pos k))
        (refuse pricing_unavailable "quote amounts inconsistent with rate" false)
      ≡ ok tt
small_difference k h = ground (arith, h)

-- Amounts that leave 0 or 1 pass.
amounts_ok :
    (give num d get flat net_fee ppm gross fee : ℕ)
    → give * num / suc d ≡ gross
    → gross * ppm / 1_000_000 ≡ fee
    → get + fee + flat + net_fee ≤ gross
    → gross ≤ get + fee + flat + net_fee + 1
    → verify_amounts (pos give) (pos num) (pos (suc d)) (pos get) (pos flat) (pos net_fee) (pos ppm)
      ≡ ok tt
unfolding verify_amounts ◌*ℤ◌ quot_ℤ
amounts_ok give num d get flat net_fee ppm gross fee eg ef low high =
    rw
      (
        eg,
        ef,
        pos_sub gross fee (omega (arith, low)),
        pos_sub (gross - fee) flat (omega (arith, low)),
        pos_sub (gross - fee - flat) net_fee (omega (arith, low)),
        pos_sub (gross - fee - flat - net_fee) get (omega (arith, low)),
      )
      (small_difference (gross - fee - flat - net_fee - get) (omega (arith, high)))

amounts_pass :
    (give num d get flat net_fee ppm gross fee : ℕ)
    → 0 < d
    → give * num / d ≡ gross
    → gross * ppm / 1_000_000 ≡ fee
    → get + fee + flat + net_fee ≤ gross
    → gross ≤ get + fee + flat + net_fee + 1
    → verify_amounts (pos give) (pos num) (pos d) (pos get) (pos flat) (pos net_fee) (pos ppm)
      ≡ ok tt
amounts_pass give num zero get flat net_fee ppm gross fee h = absurd (omega (arith, h))
amounts_pass give num (suc d) get flat net_fee ppm gross fee h =
    amounts_ok give num d get flat net_fee ppm gross fee

ceil_between :
    (value num d c : ℕ)
    → mul_div_ceil value num (suc d) ≡ some c
    → (value * num / suc d ≤ c) × (c ≤ value * num / suc d + 1)
unfolding mul_div_ceil
ceil_between value num d c h = ground (arith, h)

pub floor_some : (v n d g : ℕ) → mul_div_floor v n d ≡ some g → (0 < d) × (v * n / d ≡ g)
unfolding mul_div_floor
floor_some v n d g h = ground (arith, h)

-- A quote on the give side leaves the hub at most one unit more than its rate and fees say.
pub give_amounts-honest :
    (rate : Rational) (ppm flat net_fee value : ℕ) (a : Amounts)
    → give_amounts rate ppm flat net_fee value ≡ ok a
    → verify_amounts
        (pos a.give)
        (pos a.rate.num)
        (pos a.rate.den)
        (pos a.get)
        (pos flat)
        (pos net_fee)
        (pos ppm)
      ≡ ok tt
unfolding give_amounts ◌>>=◌
give_amounts-honest rate ppm flat net_fee value a h =
    elim (Option-cases (mul_div_floor value rate.num rate.den)) [
      | inl e ↦ absurd (cc (h, e))
      | inr (gross, e) ↦ elim (Option-cases (mul_div_ceil gross ppm 1_000_000)) [
        | inl e2 ↦ absurd (cc (h, e, e2))
        | inr (fee, e2) ↦ elim (Bool-cases (leb gross (fee + flat + net_fee))) [
          | inl poor ↦ absurd (cc (h, e, e2, poor))
          | inr rich ↦
              let same : a
                  ≡ record { give = value; get = gross - (fee + flat + net_fee); rate = rate } =
                cc (h, e, e2, rich) in
              let (some_den, eg) = floor_some value rate.num rate.den gross e in
              let (low, high) = ceil_between gross ppm 999_999 fee e2 in
              rw same (
                amounts_pass value rate.num rate.den (gross - (fee + flat + net_fee)) flat net_fee
                  ppm gross (gross * ppm / 1_000_000) some_den eg refl (ground (arith, low, rich))
                  (ground (arith, high, rich)))
        ]
      ]
    ]

abbrev whole_rate : ℕ → ℕ → Rational
whole_rate gross give = normalize (record { num = gross; den = give })

-- The published rate turns the given amount into exactly the gross amount.
published :
    (gross give : ℕ)
    → 0 < (whole_rate gross give).den
    → give * (whole_rate gross give).num / (whole_rate gross give).den ≡ gross
unfolding normalize
published zero zero h = omega arith
published (suc n) zero h = absurd (omega (arith, h))
published gross (suc m) h = (exact_rate gross (suc m) (omega arith)).1

-- So does a quote on the get side, whose published rate has a denominator.
pub get_amounts-honest :
    (rate : Rational) (ppm flat net_fee value : ℕ) (a : Amounts)
    → get_amounts rate ppm flat net_fee value ≡ ok a
    → 0 < a.rate.den
    → verify_amounts
        (pos a.give)
        (pos a.rate.num)
        (pos a.rate.den)
        (pos a.get)
        (pos flat)
        (pos net_fee)
        (pos ppm)
      ≡ ok tt
unfolding get_amounts ◌>>=◌
get_amounts-honest rate ppm flat net_fee value a h den_pos =
    elim (Option-cases (minimal_gross ppm (value + flat + net_fee))) [
      | inl e ↦ absurd (cc (h, e))
      | inr (gross, e) ↦ elim (Option-cases (mul_div_ceil gross rate.den rate.num)) [
        | inl e2 ↦ absurd (cc (h, e, e2))
        | inr (give, e2) ↦
            let same : a ≡ record { give = give; get = value; rate = whole_rate gross give } =
              cc (h, e, e2) in
            let d : 0 < (whole_rate gross give).den = subst (λ x. 0 < x.rate.den) same den_pos in
            let (low, high) = minimal_gross-tight ppm (value + flat + net_fee) gross e in
            rw same (
              amounts_pass give (whole_rate gross give).num (whole_rate gross give).den value flat
                net_fee ppm gross (gross * ppm / 1_000_000) d (published gross give d) refl
                (omega (arith, low)) (omega (arith, high)))
      ]
    ]
