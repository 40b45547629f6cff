-- ===== src/Rfq/Service.antt =====
-- `QuoteService` (bifrostd/src/rfq/quote-service.ts). The clock and the quote ids are parameters.
-- Fees and bounds are amounts that are not negative, and so is a value within the bounds.
use bitfrost.Base.{
  ℕ, ◌+◌, ◌-◌, String, Bool, true, false, not, ◌||◌, Option, none, some, leb, ltb, List, ◌==◌,
  str_eq, truthy, if◌then◌else◌,
}
use bitfrost.Base.Int.{ℤ, pos, negsuc, ltb_ℤ, ◌+ℤ◌, eq_ℤ}
use bitfrost.Base.Decimal.{big_int, to_string}
use bitfrost.Sdk.Types.{
  Pair, Quote, QuoteRequest, Side, give_side, get_side, protocol_version, ErrorCode, internal,
  invoice_invalid, invoice_mismatch, range_error, plain_error,
}
use bitfrost.Sdk.Canonical.{SignedType, signing_digest}
use bitfrost.Sdk.Signed.{Crypto, unsigned_quote}
use bitfrost.Sdk.Verify.{is_pay_invoice}
use bitfrost.Orders.Ports.{Result, ok}
use bitfrost.Rfq.Fallible.{◌>>=◌, ◌>>◌, attempt, refuse, when}
use bitfrost.Rfq.Rational.{Rational, normalize, mul_div_floor, mul_div_ceil}
use bitfrost.Rfq.Pricing.{
  PricingContext, PricingStrategy, Price, PriceDecision, accept, reject, QuoteRejectCode,
  pair_unsupported, amount_out_of_bounds, inventory_insufficient, pricing_unavailable,
}
use bitfrost.Rfq.Minimal.{minimal_gross}

pub record QuoteServiceConfig : Type 0 where
  pub crypto : Crypto
  pub hub_pubkey : String
  pub strategy : PricingStrategy
  pub quote_ttl_ms : ℕ
  pub max_incoming_hold_ms : ℕ
  pub min_safety_delta_ms : ℕ
  pub est_network_fee : QuoteRequest → ℕ
  pub min_amount : ℕ
  pub max_amount : ℕ
  pub supports_pair : Option (Pair → Bool)
  pub now : ℕ
  pub quote_id : String

abbrev reject_code : QuoteRejectCode → ErrorCode
reject_code pair_unsupported = ErrorCode.pair_unsupported
reject_code amount_out_of_bounds = ErrorCode.amount_out_of_bounds
reject_code inventory_insufficient = ErrorCode.inventory_insufficient
reject_code pricing_unavailable = ErrorCode.pricing_unavailable

abbrev is_unavailable : QuoteRejectCode → Bool
is_unavailable pricing_unavailable = true
is_unavailable _ = false

abbrev supports : Option (Pair → Bool) → Pair → Bool
supports none pair = true
supports (some f) pair = f pair

-- `BigInt(req.amount.value)`, within the bounds.
abbrev in_bounds : ℕ → ℕ → Option ℤ → Result ℕ
in_bounds low high none =
    refuse ErrorCode.amount_out_of_bounds "amount is not a base-10 integer string" false
in_bounds low high (some (negsuc n)) = refuse ErrorCode.amount_out_of_bounds "amount outside" false
in_bounds low high (some (pos v)) =
    if ltb v low || ltb high v
    then refuse ErrorCode.amount_out_of_bounds "amount outside" false
    else ok v

abbrev pub differs : Option ℤ → ℕ → Bool
differs none value = false
differs (some amount) value = not (eq_ℤ amount (pos value))

abbrev pub check_target : Option String → Option ℤ → ℕ → Result (Unit {0})
check_target none amount value = refuse invoice_invalid "PAY_INVOICE requires targetInvoice" false
check_target (some invoice) amount value =
    when (differs amount value)
      (refuse invoice_mismatch "request amount does not match invoice amount" false)

-- `validate`; its result is the value that it has read.
unfoldable pub validate : QuoteServiceConfig → QuoteRequest → Option ℤ → Result ℕ
validate cfg req invoice_amount = do
  when (not (str_eq req.protocol protocol_version)) (refuse internal "unsupported protocol" false)
  when (not (supports cfg.supports_pair req.pair))
      (refuse ErrorCode.pair_unsupported "pair not offered by this hub" false)
  value ← in_bounds cfg.min_amount cfg.max_amount (big_int req.value)
  when (is_pay_invoice req.mode) (check_target (truthy req.target_invoice) invoice_amount value)
  ok value

-- What `quote` settles on: `giveAmount`, `getAmount` and `publishedRate`.
pub record Amounts : Type 0 where
  pub give : ℕ
  pub get : ℕ
  pub rate : Rational

-- A value on the give side. `getAmount <= 0n` is `gross <= hubFee + flatFee + netFee`.
unfoldable pub give_amounts : Rational → ℕ → ℕ → ℕ → ℕ → Result Amounts
give_amounts rate ppm flat net_fee value = do
  gross ← attempt (mul_div_floor value rate.num rate.den) range_error
  hub_fee ← attempt (mul_div_ceil gross ppm 1_000_000) range_error
  if leb gross (hub_fee + flat + net_fee)
      then refuse ErrorCode.amount_out_of_bounds "amount does not cover fees" false
      else ok (record { give = value; get = gross - (hub_fee + flat + net_fee); rate = rate })

-- A value on the get side.
unfoldable pub get_amounts : Rational → ℕ → ℕ → ℕ → ℕ → Result Amounts
get_amounts rate ppm flat net_fee value = do
  gross ← attempt (minimal_gross ppm (value + flat + net_fee)) range_error
  give ← attempt (mul_div_ceil gross rate.den rate.num) range_error
  ok (record { give = give; get = value; rate = normalize (record { num = gross; den = give }) })

unfoldable pub amounts_for : Side → Rational → ℕ → ℕ → ℕ → ℕ → Result Amounts
unfolding give_amounts get_amounts
amounts_for give_side = give_amounts
amounts_for get_side = get_amounts

abbrev pub decided : PriceDecision → String → Result Price
decided (accept p) name = ok p
decided (reject code) name = refuse (reject_code code) "pricing rejected" (is_unavailable code)

-- The quote before it is signed.
unfoldable pub draft : QuoteServiceConfig → QuoteRequest → Price → ℕ → Amounts → Quote
draft cfg req p net_fee a = record {
  protocol = protocol_version;
  quote_id = cfg.quote_id;
  pair = req.pair;
  rate = record { num = to_string a.rate.num; den = to_string a.rate.den };
  give_amount = to_string a.give;
  get_amount = to_string a.get;
  fee_breakdown = record {
    hub_fee_ppm = to_string p.hub_fee_ppm;
    flat_fee = to_string p.flat_fee;
    est_network_fee = to_string net_fee;
  };
  issued_at = cfg.now;
  expires_at = cfg.now + cfg.quote_ttl_ms;
  max_incoming_hold_ms = cfg.max_incoming_hold_ms;
  min_safety_delta_ms = cfg.min_safety_delta_ms;
  hub_pubkey = cfg.hub_pubkey;
  signature = "";
}

abbrev pub stamped : Crypto → Quote → Option (List ℕ) → Option Quote
stamped c q none = none
stamped c q (some digest) = some (record q { signature = c.schnorr_sign digest })

unfoldable pub sign : Crypto → Quote → Option Quote
sign c q =
    stamped c q (signing_digest c.stringify c.utf8 c.sha256 (unsigned_quote q) SignedType.quote)

-- Inventory admission: the hub must hold what it pays out.
unfoldable pub admit : PricingContext → Amounts → Result (Unit {0})
admit ctx a = do
  gross_out ← attempt (mul_div_floor a.give a.rate.num a.rate.den) range_error
  when (ltb_ℤ ctx.inventory.get_available (pos gross_out +ℤ ctx.in_flight_exposure)) (
      refuse ErrorCode.inventory_insufficient "insufficient outbound inventory for this amount"
        true)

unfoldable pub issue_at :
    QuoteServiceConfig → QuoteRequest → PricingContext → Price → ℕ → Rational → ℕ → Result Quote
unfolding amounts_for admit draft sign
issue_at cfg req ctx p net_fee rate value = do
  a ← amounts_for req.side rate p.hub_fee_ppm p.flat_fee net_fee value
  admit ctx a
  attempt (sign cfg.crypto (draft cfg req p net_fee a)) plain_error

unfoldable pub issue :
    QuoteServiceConfig → QuoteRequest → PricingContext → Price → Rational → ℕ → Result Quote
unfolding issue_at
issue cfg req ctx p rate value =
    if rate.num == 0
    then refuse ErrorCode.pricing_unavailable "strategy produced a zero rate" true
    else issue_at cfg req ctx p (cfg.est_network_fee req) rate value

unfoldable pub quote : QuoteServiceConfig → QuoteRequest → PricingContext → Option ℤ → Result Quote
unfolding validate issue
quote cfg req ctx invoice_amount = do
  value ← validate cfg req invoice_amount
  decision ← cfg.strategy.price req ctx
  p ← decided decision cfg.strategy.name
  issue cfg req ctx p (normalize p.rate) value
