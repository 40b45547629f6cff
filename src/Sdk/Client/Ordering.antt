-- ===== src/Sdk/Client/Ordering.antt =====
-- What `payAnyInvoice` of sdk/src/client.ts orders.
use mathlib.Core.Path.{subst}
use bitfrost.Sdk.Signed.{Crypto}
use bitfrost.Sdk.Types.{ErrorCode}
use bitfrost.Base.{
  ap, ℕ, ◌≡◌, refl, ◌∙◌, String, true, false, not, ◌&&◌, Option, none, some, Bool-cases, inl, inr,
  arith,
}
use bitfrost.Base.Int.{ℤ, eq_ℤ}
use bitfrost.Base.Decimal.{big_int}
use bitfrost.Sdk.Types.{AssetRef, Quote, QuoteRequest, pay_invoice, Order}
use bitfrost.Sdk.Invoice.{InvoiceInfo, detect_invoice}
use bitfrost.Sdk.Verify.{verify_quote, verify_terms, is_pay_invoice}
use bitfrost.Orders.Ports.{Result, ok}
use bitfrost.Rfq.Fallible.{refuse, when, passed, attempted}
use bitfrost.Sdk.Client.{
  Client, Reply, json, get_quote, invoice_request, is_sub_sat, pay_any_invoice,
}

-- A quote pays exactly an amount, where there is one.
abbrev pub PaysExactly : Option ℤ → Quote → Type 0
PaysExactly none q = Unit
PaysExactly (some a) q = big_int q.get_amount ≡ some a

same_amount :
    (get a : ℤ)
    → (when
        (true && not (eq_ℤ get a))
        (refuse ErrorCode.invoice_mismatch "quote getAmount does not equal invoice amount" false))
      ≡ ok tt
    → get ≡ a
same_amount get a h = elim (Bool-cases (eq_ℤ get a)) [
  | inl same ↦ ground (arith, same)
  | inr other ↦ absurd (ground (arith, other, h))
]

terms-PaysExactly :
    (q : Quote) (amount : Option ℤ)
    → verify_terms q pay_invoice amount ≡ ok tt
    → PaysExactly amount q
unfolding verify_terms is_pay_invoice
terms-PaysExactly q none h = tt
terms-PaysExactly q (some a) h =
    let (give, e1, h1) = passed _ _ h in
    let (num, e2, h2) = passed _ _ h1 in
    let (den, e3, h3) = passed _ _ h2 in
    let (get, e4, h4) = passed _ _ h3 in
    let (flat, e5, h5) = passed _ _ h4 in
    let (net, e6, h6) = passed _ _ h5 in
    let (ppm, e7, h7) = passed _ _ h6 in
    let (_, e8, h8) = passed _ _ h7 in attempted _ _ e4 ∙ ap some (same_amount get a h8)

verified-PaysExactly :
    (c : Crypto) (q : Quote) (req : QuoteRequest) (now : ℕ) (amount : Option ℤ)
    → req.mode ≡ pay_invoice
    → verify_quote c q req now amount ≡ ok tt
    → PaysExactly amount q
unfolding verify_quote
verified-PaysExactly c q req now amount m h =
    let (_, e1, h1) = passed _ _ h in
    let (_, e2, h2) = passed _ _ h1 in
    let (genuine, e3, h3) = passed _ _ h2 in
    let (_, e4, h4) = passed _ _ h3 in
    let (_, e5, h5) = passed _ _ h4 in
    terms-PaysExactly q amount (subst (λ x. verify_terms q x amount ≡ ok tt) m h5)

got_verified :
    (c : Client) (req : QuoteRequest) (amount : Option ℤ) (r : Result (Reply Quote)) (q : Quote)
    → get_quote c req amount r ≡ ok q
    → verify_quote c.crypto q req c.now amount ≡ ok tt
unfolding get_quote
got_verified c req amount r q h =
    let (reply, e1, h1) = passed r _ h in
    let (quote, e2, h2) = passed (json reply) _ h1 in
    let (u, e3, h3) = passed (verify_quote c.crypto quote req c.now amount) (λ u. ok quote) h2 in
    let same : quote ≡ q = cc (h3) in
    subst (λ x. verify_quote c.crypto x req c.now amount ≡ ok tt) same e3

-- Whatever the hub and the network answer, an order that `payAnyInvoice` returns was asked for with
-- a quote that passed `verifyQuote` for the invoice, and where the invoice has an amount, the quote
-- pays exactly that amount out.
pub ordered_quote_pays_invoice :
    (c : Client) (quotes : QuoteRequest → Result (Reply Quote))
    (orders : String → Result (Reply Order)) (invoice : String) (give : AssetRef) (o : Order)
    (q : Quote)
    → pay_any_invoice c quotes orders invoice give ≡ ok (o, q)
    → (info : InvoiceInfo) × (detect_invoice c.decoders invoice ≡ ok info)
      × (verify_quote c.crypto q (invoice_request info give) c.now info.amount ≡ ok tt)
      × PaysExactly info.amount q
      × (reply : Reply Order) × (orders q.quote_id ≡ ok reply)
      × (json reply ≡ ok o)
unfolding pay_any_invoice invoice_request
ordered_quote_pays_invoice c quotes orders invoice give o q h =
    let (info, e1, h1) = passed (detect_invoice c.decoders invoice) _ h in
    let (_, e2, h2) = passed (when (is_sub_sat info) _) _ h1 in
    let asked = invoice_request info give in
    let (quote, e3, h3) = passed (get_quote c asked info.amount (quotes asked)) _ h2 in
    let (reply, e4, h4) = passed (orders quote.quote_id) _ h3 in
    let (order, e5, h5) = passed (json reply) (λ x. ok (x, quote)) h4 in
    let same : quote ≡ q = cc (h5) in
    let made : order ≡ o = cc (h5) in
    let verified = subst (λ x. get_quote c asked info.amount (quotes asked) ≡ ok x) same e3 in
    let good = got_verified c (invoice_request info give) info.amount _ q verified in
    (
      info,
      e1,
      good,
      verified-PaysExactly c.crypto q (invoice_request info give) c.now info.amount refl good,
      reply,
      subst (λ x. orders x.quote_id ≡ ok reply) same e4,
      e5 ∙ ap ok made,
    )
