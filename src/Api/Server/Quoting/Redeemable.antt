-- ===== src/Api/Server/Quoting/Redeemable.antt =====
-- What an answer of POST /v1/quotes is worth (bifrostd/src/api/server.ts, quotes.ts;
-- sdk/src/verify.ts).
use mathlib.Core.Path.{subst}
use bitfrost.Base.{
  ℕ, ◌≡◌, refl, ◌<◌, List, Bool, true, false, not, Option, none, some, str_eq, if◌then◌else◌,
}
use bitfrost.Base.Int.{ℤ}
use bitfrost.Sdk.Types.{Quote, QuoteRequest, protocol_version, network_of}
use bitfrost.Sdk.Invoice.{Decoders}
use bitfrost.Sdk.Verify.{verify_quote}
use bitfrost.Orders.Ports.{Result, ok, err}
use bitfrost.Rfq.Pricing.{PricingContext}
use bitfrost.Rfq.Service
use bitfrost.Rfq.Service.{QuoteServiceConfig}
use bitfrost.Rfq.Issued.{Checks, quote_verifies}
use bitfrost.Api.Quotes
use bitfrost.Api.Quotes.{QuoteCache, consume, consume-issue}
use bitfrost.Api.Inventory.{NetworkLiquidity}
use bitfrost.Api.Server.{Response, answer, caught, quote_body}
use bitfrost.Api.Server.Quoting.{
  Channels, invoice_amount, issued, with_amount, with_liquidity, for_request, handle_quotes,
  both_liquidities, is_offered, context,
}

module _ (cfg : QuoteServiceConfig) (d : Decoders) (req : QuoteRequest) (c : QuoteCache)
    (q : Quote) where
  -- How a quote came to be answered.
  record Issued (r : Response × QuoteCache) : Type 0 where
    ctx : PricingContext
    amount : Option ℤ
    detected : invoice_amount d req ≡ some amount
    quoted : Service.quote cfg req ctx amount ≡ ok q
    cached : r.1 ≡ Quotes.issue q req c

  IsAnswer : Response × QuoteCache → Type 0
  IsAnswer r = r.0 ≡ answer (quote_body q)

  issued-Issued :
      (ctx : PricingContext) (amount : Option ℤ) (r : Result Quote)
      → invoice_amount d req ≡ some amount
      → Service.quote cfg req ctx amount ≡ r
      → IsAnswer (issued req c r)
      → Issued (issued req c r)
  unfolding IsAnswer caught
  issued-Issued ctx amount (err e) a s h = absurd (cc (h))
  issued-Issued ctx amount (ok p) a s h =
      let same : p ≡ q = cc (h) in
      rw same (record { ctx = ctx; amount = amount; detected = a; quoted = cc; cached = refl })

  with_amount-Issued :
      (ctx : PricingContext) (amount : Option (Option ℤ))
      → invoice_amount d req ≡ amount
      → IsAnswer (with_amount cfg req c ctx amount)
      → Issued (with_amount cfg req c ctx amount)
  unfolding IsAnswer
  with_amount-Issued ctx none a h = absurd (cc (h))
  with_amount-Issued ctx (some amount) a h = issued-Issued ctx amount _ a refl h

  with_liquidity-Issued :
      (r : Result (NetworkLiquidity × NetworkLiquidity))
      → IsAnswer (with_liquidity cfg d req c r)
      → Issued (with_liquidity cfg d req c r)
  unfolding IsAnswer caught
  with_liquidity-Issued (err e) h = absurd (cc (h))
  with_liquidity-Issued (ok (give, get)) h = with_amount-Issued (context cfg.now give get) _ refl h

  refused_or-Issued :
      (b : Bool) (x y : Response × QuoteCache)
      → (IsAnswer x → ⊥)
      → (IsAnswer y → Issued y)
      → IsAnswer (if b then x else y)
      → Issued (if b then x else y)
  refused_or-Issued true x y never f h = absurd (never h)
  refused_or-Issued false x y never f h = f h

  for_request-Issued :
      (cs : Channels) → IsAnswer (for_request cfg d cs req c) → Issued (for_request cfg d cs req c)
  unfolding IsAnswer
  for_request-Issued cs =
      refused_or-Issued (not (str_eq req.protocol protocol_version)) _ _ (λ h. cc (h))
        (refused_or-Issued (not (is_offered (network_of req.pair.give) (network_of req.pair.gets)))
          _ _ (λ h. cc (h)) (with_liquidity-Issued (both_liquidities req.pair cs)))

  -- A quote that POST /v1/quotes answers is good until it expires: `verifyQuote` accepts it for the
  -- request, and the next redemption of its id returns the quote with that request. It is assumed that
  -- the key verifies what it signed, and that the client, where it asks for PAY_INVOICE and compares
  -- with an amount, fixes the get side and compares with the amount that the hub detects in the
  -- invoice.
  pub answered_quote_redeemable :
      (cs : Channels) (later : ℕ) (amount checked : Option ℤ)
      → ((m : List ℕ)
          → cfg.crypto.schnorr_verify (cfg.crypto.schnorr_sign m) m cfg.hub_pubkey ≡ true)
      → (handle_quotes cfg d cs (some req) c).0 ≡ answer (quote_body q)
      → later < q.expires_at
      → invoice_amount d req ≡ some amount
      → Checks req amount checked
      → (verify_quote cfg.crypto q req later checked ≡ ok tt)
        × ((consume q.quote_id later (handle_quotes cfg d cs (some req) c).1).0
            ≡ some (record { quote = q; request = req }))
  unfolding handle_quotes IsAnswer
  answered_quote_redeemable cs later amount checked genuine h fresh found k =
      let i = for_request-Issued cs h in
      let same : amount ≡ i.amount = cc (found, i.detected) in
      (
        quote_verifies cfg req i.ctx i.amount q later checked genuine i.quoted fresh
            (subst (λ x. Checks req x checked) same k),
        rw i.cached (consume-issue q req later c fresh),
      )
