-- ===== src/Api/Server/Quoting.antt =====
-- `handleQuotes` of bifrostd/src/api/server.ts: POST /v1/quotes.
pub mod Redeemable
use bitfrost.Base.{
  ℕ, String, Bool, true, false, not, ◌&&◌, ◌||◌, Option, none, some, List, str_eq, truthy,
  if◌then◌else◌,
}
use bitfrost.Base.Int.{ℤ, pos}
use bitfrost.Sdk.Types.{
  Network, fiber, lightning, network_of, Pair, Quote, QuoteRequest, QuoteMode, protocol_version,
  invoice_invalid, pair_unsupported, internal,
}
use bitfrost.Sdk.Invoice.{Decoders, InvoiceInfo, detect_invoice}
use bitfrost.Sdk.Verify.{is_pay_invoice}
use bitfrost.Orders.Ports.{Result, ok, err}
use bitfrost.Rfq.Fallible.{◌>>=◌}
use bitfrost.Rfq.Pricing.{PricingContext}
use bitfrost.Rfq.Service
use bitfrost.Rfq.Service.{QuoteServiceConfig}
use bitfrost.Api.Quotes
use bitfrost.Api.Quotes.{QuoteCache}
use bitfrost.Api.Inventory.{
  FiberChannel, LightningChannel, NetworkLiquidity, fiber_liquidity, lightning_liquidity,
}
use bitfrost.Api.Server.{Response, answer, envelope, caught, quote_body}

-- What the two nodes answer to `getChannels`.
pub record Channels : Type 0 where
  pub fiber : Result (List FiberChannel)
  pub lightning : Result (List LightningChannel)

unfoldable pub liquidity_of : Network → Channels → Result NetworkLiquidity
unfolding ◌>>=◌ fiber_liquidity lightning_liquidity
liquidity_of fiber c = c.fiber >>= λ cs. ok (fiber_liquidity cs)
liquidity_of lightning c = c.lightning >>= λ cs. ok (lightning_liquidity cs)

-- `supported`.
abbrev pub is_offered : Network → Network → Bool
is_offered fiber lightning = true
is_offered lightning fiber = true
is_offered _ _ = false

-- The amount of the target invoice; the outer `none` is an invoice that could not be decoded.
abbrev amount_of : Result InvoiceInfo → Option (Option ℤ)
amount_of (ok info) = some info.amount
amount_of (err e) = none

abbrev amount_in : Decoders → Option String → Option (Option ℤ)
amount_in d none = some none
amount_in d (some text) = amount_of (detect_invoice d text)

unfoldable pub invoice_amount : Decoders → QuoteRequest → Option (Option ℤ)
unfolding detect_invoice is_pay_invoice
invoice_amount d req =
    if is_pay_invoice req.mode then amount_in d (truthy req.target_invoice) else some none

abbrev context : ℕ → NetworkLiquidity → NetworkLiquidity → PricingContext
context now give get = record {
  inventory = record { give_available = give.available; get_available = get.available };
  in_flight_exposure = pos 0;
  now = now;
  feed_rate = none;
  feed_updated_at = none;
}

abbrev issued : QuoteRequest → QuoteCache → Result Quote → Response × QuoteCache
issued req c (ok q) = (answer (quote_body q), Quotes.issue q req c)
issued req c (err e) = (caught e, Quotes.reject c)

abbrev with_amount :
    QuoteServiceConfig
    → QuoteRequest
    → QuoteCache
    → PricingContext
    → Option (Option ℤ)
    → Response × QuoteCache
with_amount cfg req c ctx none =
    (envelope 400 invoice_invalid "targetInvoice could not be decoded", Quotes.reject c)
with_amount cfg req c ctx (some amount) = issued req c (Service.quote cfg req ctx amount)

-- The two calls are awaited together; the error of the first is taken.
abbrev with_liquidity :
    QuoteServiceConfig
    → Decoders
    → QuoteRequest
    → QuoteCache
    → Result (NetworkLiquidity × NetworkLiquidity)
    → Response × QuoteCache
with_liquidity cfg d req c (err e) = (caught e, Quotes.reject c)
with_liquidity cfg d req c (ok (give, get)) =
    with_amount cfg req c (context cfg.now give get) (invoice_amount d req)

unfoldable pub both_liquidities : Pair → Channels → Result (NetworkLiquidity × NetworkLiquidity)
unfolding liquidity_of network_of ◌>>=◌
both_liquidities p cs = do
  give ← liquidity_of (network_of p.give) cs
  get ← liquidity_of (network_of p.gets) cs
  ok (give, get)

-- The handler, for a body that was read. `cfg.now` is the time of the request.
abbrev for_request :
    QuoteServiceConfig → Decoders → Channels → QuoteRequest → QuoteCache → Response × QuoteCache
for_request cfg d cs req c =
    if not (str_eq req.protocol protocol_version)
    then (envelope 400 internal "unsupported protocol", Quotes.reject c)
    else if not (is_offered (network_of req.pair.give) (network_of req.pair.gets))
    then (envelope 400 pair_unsupported "only fiber<->lightning is offered", Quotes.reject c)
    else with_liquidity cfg d req c (both_liquidities req.pair cs)

unfoldable pub handle_quotes :
    QuoteServiceConfig
    → Decoders
    → Channels
    → Option QuoteRequest
    → QuoteCache
    → Response × QuoteCache
unfolding both_liquidities invoice_amount
handle_quotes cfg d cs none c = (envelope 400 invoice_invalid "malformed JSON body", c)
handle_quotes cfg d cs (some req) c = for_request cfg d cs req c
