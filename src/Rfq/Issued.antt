-- ===== src/Rfq/Issued.antt =====
-- A quote as the hub issues it (bifrostd/src/rfq/quote-service.ts) before the client's checks
-- (sdk/src/verify.ts).
use mathlib.Core.Path.{subst}
use bitfrost.Base.{
  ℕ, ◌<◌, ◌≡◌, ◌⊎◌, truthy, refl, List, String, true, false, Option, none, some, leb, ◌==◌, arith,
  str_eq_refl, Bool-cases, inl, inr,
}
use bitfrost.Base.Int.{ℤ, pos}
use bitfrost.Base.Decimal.RoundTrip.{big_int-to_string}
use bitfrost.Sdk.Types.{
  AssetRef, lightning_sat, fiber_shannon, fiber_udt, Quote, QuoteRequest, QuoteMode, Side,
  give_side, get_side, range_error,
}
use bitfrost.Sdk.Canonical.{SignedType, signing_digest}
use bitfrost.Sdk.Signed.{
  Crypto, unsigned_quote, signed_quote, signed_quote-digest, verify_quote_signature,
}
use bitfrost.Sdk.Verify.{
  is_pay_invoice, is_mismatch, same_asset, verify_amounts, verify_terms, verify_quote,
}
use bitfrost.Orders.Ports.{ok}
use bitfrost.Rfq.Fallible.{passed, attempted, ◌>>=◌, attempt, when}
use bitfrost.Rfq.Rational.{Rational, normalize, mul_div_ceil}
use bitfrost.Rfq.Pricing.{PricingContext, Price}
use bitfrost.Rfq.Service.{
  QuoteServiceConfig, Amounts, amounts_for, draft, sign, stamped, admit, issue_at, issue, quote,
  validate, check_target, differs, get_amounts,
}
use bitfrost.Rfq.Honest.{give_amounts-honest, get_amounts-honest, floor_some}

same_asset_refl : (a : AssetRef) → same_asset a a ≡ true
unfolding same_asset
same_asset_refl lightning_sat = refl
same_asset_refl fiber_shannon = refl
same_asset_refl (fiber_udt s) = simp (str_eq_refl)

amounts_for-honest :
    (side : Side) (rate : Rational) (ppm flat net_fee value : ℕ) (a : Amounts)
    → amounts_for side rate ppm flat net_fee value ≡ ok a
    → 0 < a.rate.den
    → verify_amounts
        (pos a.give)
        (pos a.rate.num)
        (pos a.rate.den)
        (pos a.get)
        (pos flat)
        (pos net_fee)
        (pos ppm)
      ≡ ok tt
unfolding amounts_for
amounts_for-honest give_side rate ppm flat net_fee value a h d =
    give_amounts-honest rate ppm flat net_fee value a h
amounts_for-honest get_side rate ppm flat net_fee value a h d =
    get_amounts-honest rate ppm flat net_fee value a h d

admit-den : (ctx : PricingContext) (a : Amounts) → admit ctx a ≡ ok tt → 0 < a.rate.den
unfolding admit
admit-den ctx a h =
    let (gross, e, _) = passed _ _ h in
    (floor_some a.give a.rate.num a.rate.den gross (attempted _ _ e)).0

-- What a client may compare the quote with, where the hub has found this amount in the invoice: no
-- amount, any amount where the request is not for PAY_INVOICE, or the same amount where the request
-- fixes the get side.
abbrev pub Checks : QuoteRequest → Option ℤ → Option ℤ → Type 0
Checks req amount checked =
    (checked ≡ none)
    ⊎ (is_pay_invoice req.mode ≡ false)
    ⊎ ((req.side ≡ get_side) × (checked ≡ amount))

unpaid_matches :
    (mode : QuoteMode) (get : ℤ) (checked : Option ℤ)
    → is_pay_invoice mode ≡ false
    → is_mismatch mode get checked ≡ false
unpaid_matches mode get none h = refl
unpaid_matches mode get (some n) h = rw h refl

target_checked :
    (target : Option String) (amount : Option ℤ) (value : ℕ)
    → check_target target amount value ≡ ok tt
    → differs amount value ≡ false
target_checked none amount value h = absurd (cc (h))
target_checked (some t) amount value h = elim (Bool-cases (differs amount value)) [
  | inl e ↦ absurd (ground (arith, e, h))
  | inr e ↦ e
]

same_matches :
    (mode : QuoteMode) (amount : Option ℤ) (value : ℕ)
    → differs amount value ≡ false
    → is_mismatch mode (pos value) amount ≡ false
same_matches mode none value h = refl
same_matches mode (some n) value h = ground (arith, h)

validated :
    (cfg : QuoteServiceConfig) (req : QuoteRequest) (amount : Option ℤ) (value : ℕ)
    → validate cfg req amount ≡ ok value
    → is_pay_invoice req.mode ≡ true
    → differs amount value ≡ false
unfolding validate
validated cfg req amount value h pays =
    let (_, e1, h1) = passed _ _ h in
    let (_, e2, h2) = passed _ _ h1 in
    let (v, e3, h3) = passed _ _ h2 in
    let (_, e4, h4) =
      passed (when (is_pay_invoice req.mode) (check_target (truthy req.target_invoice) amount v))
        (λ u. ok v) h3 in
    let same : v ≡ value = cc (h4) in
    rw (← same) (target_checked (truthy req.target_invoice) amount v (ground (arith, pays, e4)))

get_value :
    (rate : Rational) (ppm flat net_fee value : ℕ) (a : Amounts)
    → amounts_for get_side rate ppm flat net_fee value ≡ ok a
    → a.get ≡ value
unfolding amounts_for get_amounts
get_value rate ppm flat net_fee value a h =
    let (gross, e1, h1) = passed _ _ h in
    let (give, e2, h2) = passed (attempt (mul_div_ceil gross rate.den rate.num) range_error) _ h1 in
    ground (arith, h2)

-- What was read of the amount agrees with what the client compares.
abbrev Agrees : QuoteRequest → Option ℤ → ℕ → Type 0
Agrees req checked value =
    (is_pay_invoice req.mode ≡ false)
    ⊎ (checked ≡ none)
    ⊎ ((req.side ≡ get_side) × (differs checked value ≡ false))

validate-Agrees :
    (cfg : QuoteServiceConfig) (req : QuoteRequest) (amount checked : Option ℤ) (value : ℕ)
    → validate cfg req amount ≡ ok value
    → Checks req amount checked
    → Agrees req checked value
validate-Agrees cfg req amount checked value h (inl e) = inr (inl e)
validate-Agrees cfg req amount checked value h (inr (inl e)) = inl e
validate-Agrees cfg req amount checked value h (inr (inr (side, e))) =
    elim (Bool-cases (is_pay_invoice req.mode)) [
      | inl pays ↦ rw e (inr (inr (side, validated cfg req amount value h pays)))
      | inr other ↦ inl other
    ]

agreed_matches :
    (req : QuoteRequest) (checked : Option ℤ) (rate : Rational) (ppm flat net_fee value : ℕ)
    (a : Amounts)
    → Agrees req checked value
    → amounts_for req.side rate ppm flat net_fee value ≡ ok a
    → is_mismatch req.mode (pos a.get) checked ≡ false
agreed_matches req checked rate ppm flat net_fee value a (inl e) h =
    unpaid_matches req.mode (pos a.get) checked e
agreed_matches req checked rate ppm flat net_fee value a (inr (inl e)) h = rw e refl
agreed_matches req checked rate ppm flat net_fee value a (inr (inr (side, e))) h =
    let same =
      get_value rate ppm flat net_fee value a
        (subst (λ s. amounts_for s rate ppm flat net_fee value ≡ ok a) side h) in
    rw same (same_matches req.mode checked value e)

module _ (cfg : QuoteServiceConfig) (req : QuoteRequest) (p : Price) (net_fee : ℕ)
    (a : Amounts) where
  draft-terms :
      (mode : QuoteMode) (checked : Option ℤ) (signature : String)
      → is_mismatch mode (pos a.get) checked ≡ false
      → verify_amounts
          (pos a.give)
          (pos a.rate.num)
          (pos a.rate.den)
          (pos a.get)
          (pos p.flat_fee)
          (pos net_fee)
          (pos p.hub_fee_ppm)
        ≡ ok tt
      → verify_terms (record (draft cfg req p net_fee a) { signature = signature }) mode checked
        ≡ ok tt
  unfolding verify_terms draft ◌>>=◌
  draft-terms mode checked signature m h = simp (big_int-to_string, h, m)

module _ (c : Crypto) (d q : Quote) where
  stamped_inv :
      (o : Option (List ℕ))
      → stamped c d o ≡ some q
      → (m : List ℕ) × (o ≡ some m) × (q ≡ record d { signature = c.schnorr_sign m })
  stamped_inv none h = absurd (cc (h))
  stamped_inv (some m) h = (m, refl, ground (arith, h))

  same_digest :
      (s : String)
      → signing_digest c.stringify c.utf8 c.sha256
          (signed_quote (record d { signature = s }))
          SignedType.quote
        ≡ signing_digest c.stringify c.utf8 c.sha256 (unsigned_quote d) SignedType.quote
  unfolding unsigned_quote
  same_digest s = signed_quote-digest c (record d { signature = s })

  -- A signature of the hub is accepted under the hub's key.
  signed-genuine :
      ((m : List ℕ) → c.schnorr_verify (c.schnorr_sign m) m d.hub_pubkey ≡ true)
      → sign c d ≡ some q
      → (verify_quote_signature c q ≡ some true) × (s : String) × (q ≡ record d { signature = s })
  unfolding sign verify_quote_signature
  signed-genuine bip340 h =
      let (m, e, same) = stamped_inv _ h in
      (rw (same, same_digest (c.schnorr_sign m), e, bip340 m) refl, c.schnorr_sign m, same)

stamped_verifies :
    (cfg : QuoteServiceConfig) (req : QuoteRequest) (p : Price) (net_fee : ℕ) (a : Amounts)
    (s : String) (now : ℕ) (checked : Option ℤ)
    → is_mismatch req.mode (pos a.get) checked ≡ false
    → verify_amounts
        (pos a.give)
        (pos a.rate.num)
        (pos a.rate.den)
        (pos a.get)
        (pos p.flat_fee)
        (pos net_fee)
        (pos p.hub_fee_ppm)
      ≡ ok tt
    → verify_quote_signature cfg.crypto (record (draft cfg req p net_fee a) { signature = s })
      ≡ some true
    → leb (draft cfg req p net_fee a).expires_at now ≡ false
    → verify_quote cfg.crypto (record (draft cfg req p net_fee a) { signature = s }) req now checked
      ≡ ok tt
unfolding verify_quote ◌>>=◌ draft
stamped_verifies cfg req p net_fee a s now checked m honest genuine fresh = simp (
  str_eq_refl,
  fresh,
  genuine,
  same_asset_refl,
  draft-terms cfg req p net_fee a req.mode checked s m honest,
)

issue_at-verifies :
    (cfg : QuoteServiceConfig) (req : QuoteRequest) (ctx : PricingContext) (p : Price) (net_fee : ℕ)
    (rate : Rational) (value : ℕ) (q : Quote) (now : ℕ) (checked : Option ℤ)
    → Agrees req checked value
    → ((m : List ℕ) → cfg.crypto.schnorr_verify (cfg.crypto.schnorr_sign m) m cfg.hub_pubkey ≡ true)
    → issue_at cfg req ctx p net_fee rate value ≡ ok q
    → now < q.expires_at
    → verify_quote cfg.crypto q req now checked ≡ ok tt
unfolding issue_at
issue_at-verifies cfg req ctx p net_fee rate value q now checked g bip340 h fresh =
    let (a, e, h1) =
      passed (amounts_for req.side rate p.hub_fee_ppm p.flat_fee net_fee value) _ h in
    let (_, e1, h2) = passed (admit ctx a) _ h1 in
    let signed = attempted (sign cfg.crypto (draft cfg req p net_fee a)) _ h2 in
    let (genuine, s, same) =
      signed-genuine cfg.crypto (draft cfg req p net_fee a) q bip340 signed in
    let honest =
      amounts_for-honest req.side rate p.hub_fee_ppm p.flat_fee net_fee value a e
        (admit-den ctx a e1) in
    rw same (
      stamped_verifies cfg req p net_fee a s now checked
        (agreed_matches req checked rate p.hub_fee_ppm p.flat_fee net_fee value a g e) honest
        (subst (λ x. verify_quote_signature cfg.crypto x ≡ some true) same genuine)
        (subst (λ x. leb x.expires_at now ≡ false) same (ground (arith, fresh))))

issue_positive :
    (cfg : QuoteServiceConfig) (req : QuoteRequest) (ctx : PricingContext) (p : Price)
    (rate : Rational) (value : ℕ)
    → rate.num == 0 ≡ false
    → issue cfg req ctx p rate value ≡ issue_at cfg req ctx p (cfg.est_network_fee req) rate value
unfolding issue
issue_positive cfg req ctx p rate value h = rw h refl

issue-verifies :
    (cfg : QuoteServiceConfig) (req : QuoteRequest) (ctx : PricingContext) (p : Price)
    (rate : Rational) (value : ℕ) (q : Quote) (now : ℕ) (checked : Option ℤ)
    → Agrees req checked value
    → ((m : List ℕ) → cfg.crypto.schnorr_verify (cfg.crypto.schnorr_sign m) m cfg.hub_pubkey ≡ true)
    → issue cfg req ctx p rate value ≡ ok q
    → now < q.expires_at
    → verify_quote cfg.crypto q req now checked ≡ ok tt
unfolding issue
issue-verifies cfg req ctx p rate value q now checked g bip340 h fresh =
    elim (Bool-cases (rate.num == 0)) [
      | inl nothing ↦ absurd (ground (arith, h, nothing))
      | inr something ↦
          issue_at-verifies cfg req ctx p (cfg.est_network_fee req) rate value q now checked g
            bip340 (rw (← (issue_positive cfg req ctx p rate value something)) h) fresh
    ]

-- Every quote that the hub issues passes the client's checks until it expires, provided that the
-- signature scheme accepts the hub's own signatures: the signature, the pair, the amounts, which leave
-- the hub at most one unit more than its published rate and fees say, and for PAY_INVOICE on the get
-- side that the amount to get is the one that the hub was told the invoice carries. A client that
-- compares with no amount, or that does not ask for PAY_INVOICE, may fix either side.
pub quote_verifies :
    (cfg : QuoteServiceConfig) (req : QuoteRequest) (ctx : PricingContext) (amount : Option ℤ)
    (q : Quote) (now : ℕ) (checked : Option ℤ)
    → ((m : List ℕ) → cfg.crypto.schnorr_verify (cfg.crypto.schnorr_sign m) m cfg.hub_pubkey ≡ true)
    → quote cfg req ctx amount ≡ ok q
    → now < q.expires_at
    → Checks req amount checked
    → verify_quote cfg.crypto q req now checked ≡ ok tt
unfolding quote
quote_verifies cfg req ctx amount q now checked bip340 h fresh c =
    let (value, e1, h1) = passed (validate cfg req amount) _ h in
    let (decision, e2, h2) = passed _ _ h1 in
    let (p, e3, h3) = passed _ _ h2 in
    issue-verifies cfg req ctx p (normalize p.rate) value q now checked
      (validate-Agrees cfg req amount checked value e1 c) bip340 h3 fresh
