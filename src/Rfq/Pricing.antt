-- ===== src/Rfq/Pricing.antt =====
-- bifrostd/src/rfq/pricing.ts. Fees and spreads are configured amounts that are not negative;
-- balances are integers, since what a node reports as available is a difference.
use Prim.Native.String.{◌++◌ as append}
use bitfrost.Base.{ℕ, ◌+◌, String, Bool, Option, none, some, ltb, if◌then◌else◌}
use bitfrost.Base.Int.{ℤ, pos, minus, leb_ℤ, ◌+ℤ◌, ◌-ℤ◌, ◌*ℤ◌, quot_ℤ}
use bitfrost.Sdk.Types.{QuoteRequest, range_error}
use bitfrost.Orders.Ports.{Result, ok}
use bitfrost.Rfq.Rational.{Rational, normalize, apply_ppm}
use bitfrost.Rfq.Fallible.{◌>>=◌, attempt}

pub data QuoteRejectCode : Type 0 where
  pair_unsupported amount_out_of_bounds : QuoteRejectCode
  inventory_insufficient pricing_unavailable : QuoteRejectCode

pub record InventorySnapshot : Type 0 where
  pub give_available : ℤ
  pub get_available : ℤ

pub record PricingContext : Type 0 where
  pub inventory : InventorySnapshot
  pub in_flight_exposure : ℤ
  pub now : ℕ
  pub feed_rate : Option Rational
  pub feed_updated_at : Option ℕ

pub record Price : Type 0 where
  pub rate : Rational
  pub hub_fee_ppm : ℕ
  pub flat_fee : ℕ

pub data PriceDecision : Type 0 where
  accept : Price → PriceDecision
  reject : QuoteRejectCode → PriceDecision

pub record PricingStrategy : Type 0 where
  pub name : String
  pub price : QuoteRequest → PricingContext → Result PriceDecision

-- The rate was admitted by `rational`.
pub record StaticPegConfig : Type 0 where
  pub rate : Rational
  pub spread_ppm : ℕ
  pub hub_fee_ppm : ℕ
  pub flat_fee : ℕ

-- The price at a rate that `applyPpm` has moved.
abbrev priced : Rational → ℤ → ℕ → ℕ → Result PriceDecision
priced rate delta fee flat = do
  moved ← attempt (apply_ppm rate delta) range_error
  ok (accept (record { rate = moved; hub_fee_ppm = fee; flat_fee = flat }))

unfoldable pub static_peg : StaticPegConfig → PricingStrategy
static_peg cfg = record {
  name = "static-peg";
  price = λ req ctx. priced cfg.rate (minus cfg.spread_ppm) cfg.hub_fee_ppm cfg.flat_fee;
}

-- The fees are `hubFeePpm ?? 0n` and `flatFee ?? 0n`.
pub record FeedSpreadConfig : Type 0 where
  pub spread_ppm : ℕ
  pub max_feed_age_ms : ℕ
  pub hub_fee_ppm : Option ℕ
  pub flat_fee : Option ℕ

abbrev or_zero : Option ℕ → ℕ
or_zero none = 0
or_zero (some n) = n

-- `now - feedUpdatedAt > maxFeedAgeMs`; the difference may be negative.
abbrev is_stale : ℕ → ℕ → ℕ → Bool
is_stale now updated age = ltb (updated + age) now

feed_price : FeedSpreadConfig → ℕ → Option Rational → Option ℕ → Result PriceDecision
feed_price cfg now none updated = ok (reject pricing_unavailable)
feed_price cfg now (some rate) none = ok (reject pricing_unavailable)
feed_price cfg now (some rate) (some updated) =
    if is_stale now updated cfg.max_feed_age_ms
    then ok (reject pricing_unavailable)
    else priced (normalize rate) (minus cfg.spread_ppm) (or_zero cfg.hub_fee_ppm)
        (or_zero cfg.flat_fee)

unfoldable pub feed_spread : FeedSpreadConfig → PricingStrategy
unfolding feed_price
feed_spread cfg = record {
  name = "feed-spread";
  price = λ req ctx. feed_price cfg ctx.now ctx.feed_rate ctx.feed_updated_at;
}

pub record InventorySkewConfig : Type 0 where
  pub max_skew_ppm : ℕ

-- `(maxSkewPpm * (getAvailable - giveAvailable)) / total`.
unfoldable pub skew_ppm : ℕ → InventorySnapshot → ℤ
skew_ppm most i =
    quot_ℤ (pos most *ℤ (i.get_available -ℤ i.give_available)) (i.give_available +ℤ i.get_available)

skewed : InventorySkewConfig → PricingContext → PriceDecision → Result PriceDecision
unfolding skew_ppm
skewed cfg ctx (reject code) = ok (reject code)
skewed cfg ctx (accept p) =
    if leb_ℤ (ctx.inventory.give_available +ℤ ctx.inventory.get_available) (pos 0)
    then ok (reject inventory_insufficient)
    else priced p.rate (skew_ppm cfg.max_skew_ppm ctx.inventory) p.hub_fee_ppm p.flat_fee

unfoldable pub inventory_skew : PricingStrategy → InventorySkewConfig → PricingStrategy
unfolding skewed
inventory_skew inner cfg = record {
  name = append "inventory-skew(" (append inner.name ")");
  price = λ req ctx. inner.price req ctx >>= skewed cfg ctx;
}
