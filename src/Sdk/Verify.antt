-- ===== src/Sdk/Verify.antt =====
-- `verifyQuote` of sdk/src/verify.ts: what a client checks of a quote before it pays.
use bitfrost.Base.{
  ℕ, Bool, true, false, not, ◌&&◌, ◌||◌, Option, none, some, leb, str_eq, if◌then◌else◌,
}
use bitfrost.Base.Int.{ℤ, pos, ◌-ℤ◌, ◌*ℤ◌, quot_ℤ, ltb_ℤ, is_zero_ℤ, eq_ℤ}
use bitfrost.Base.Decimal.{big_int}
use bitfrost.Sdk.Types.{
  AssetRef, lightning_sat, fiber_shannon, fiber_udt, Quote, QuoteRequest, QuoteMode, pay_invoice,
  receive, protocol_version, internal, quote_expired, unauthorized, pair_unsupported,
  pricing_unavailable, invoice_mismatch, plain_error, syntax_error,
}
use bitfrost.Sdk.Signed.{Crypto, verify_quote_signature}
use bitfrost.Orders.Ports.{Result}
use bitfrost.Rfq.Fallible.{◌>>=◌, ◌>>◌, attempt, refuse, when}

-- `sameAsset`, which compares the written values.
unfoldable pub same_asset : AssetRef → AssetRef → Bool
same_asset lightning_sat lightning_sat = true
same_asset fiber_shannon fiber_shannon = true
same_asset (fiber_udt s) (fiber_udt t) =
    str_eq s.code_hash t.code_hash && (str_eq s.hash_type t.hash_type && str_eq s.args t.args)
same_asset _ _ = false

-- The arithmetic of a quote: `expected - getAmount` must be 0 or 1.
unfoldable pub verify_amounts : ℤ → ℤ → ℤ → ℤ → ℤ → ℤ → ℤ → Result (Unit {0})
verify_amounts give num den get flat net_fee ppm =
    if is_zero_ℤ den
    then refuse pricing_unavailable "quote rate denominator is zero" false
    else let gross = quot_ℤ (give *ℤ num) den in
      let expected = gross -ℤ quot_ℤ (gross *ℤ ppm) (pos 1_000_000) -ℤ flat -ℤ net_fee in
      let diff = expected -ℤ get in
      when (ltb_ℤ diff (pos 0) || ltb_ℤ (pos 1) diff)
        (refuse pricing_unavailable "quote amounts inconsistent with rate" false)

unfoldable pub is_pay_invoice : QuoteMode → Bool
is_pay_invoice pay_invoice = true
is_pay_invoice receive = false

abbrev pub is_mismatch : QuoteMode → ℤ → Option ℤ → Bool
is_mismatch mode get none = false
is_mismatch mode get (some amount) = is_pay_invoice mode && not (eq_ℤ get amount)

-- The amounts of a quote, read.
unfoldable pub verify_terms : Quote → QuoteMode → Option ℤ → Result (Unit {0})
unfolding verify_amounts is_pay_invoice
verify_terms quote mode invoice_amount = do
  give ← attempt (big_int quote.give_amount) syntax_error
  num ← attempt (big_int quote.rate.num) syntax_error
  den ← attempt (big_int quote.rate.den) syntax_error
  get ← attempt (big_int quote.get_amount) syntax_error
  flat ← attempt (big_int quote.fee_breakdown.flat_fee) syntax_error
  net_fee ← attempt (big_int quote.fee_breakdown.est_network_fee) syntax_error
  ppm ← attempt (big_int quote.fee_breakdown.hub_fee_ppm) syntax_error
  verify_amounts give num den get flat net_fee ppm
  when (is_mismatch mode get invoice_amount)
      (refuse invoice_mismatch "quote getAmount does not equal invoice amount" false)

unfoldable pub verify_quote : Crypto → Quote → QuoteRequest → ℕ → Option ℤ → Result (Unit {0})
unfolding same_asset verify_terms
verify_quote c quote request now invoice_amount = do
  when (not (str_eq quote.protocol protocol_version)) (refuse internal "unsupported protocol" false)
  when (leb quote.expires_at now) (refuse quote_expired "quote has expired" true)
  genuine ← attempt (verify_quote_signature c quote) plain_error
  when (not genuine) (refuse unauthorized "quote signature verification failed" false)
  when
      (not (same_asset quote.pair.give request.pair.give)
        || not (same_asset quote.pair.gets request.pair.gets))
      (refuse pair_unsupported "quote pair does not match request" false)
  verify_terms quote request.mode invoice_amount
