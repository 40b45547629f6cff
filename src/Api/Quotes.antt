-- ===== src/Api/Quotes.antt =====
-- `QuoteCache` (bifrostd/src/api/quotes.ts): the quotes that can still be redeemed. `onExpired` is
-- told the ids that a sweep returns.
use bitfrost.Base.{
  ℕ, ◌+◌, ◌*◌, ◌/◌, ◌<◌, ◌≡◌, refl, String, Bool, Option, none, some, List, [], ◌∷◌, ltb, leb,
  length, arith, if◌then◌else◌, Option-cases, inl, inr, str_eq_refl, str_eq_iff,
}
use bitfrost.Base.Dict
use bitfrost.Base.Dict.{Dict, get-delete_self}
use bitfrost.Sdk.Types.{Quote, QuoteRequest}

pub record CachedQuote : Type 0 where
  pub quote : Quote
  pub request : QuoteRequest

pub record QuoteCache : Type 0 where
  pub quotes : Dict CachedQuote
  pub issued : ℕ
  pub accepted : ℕ
  pub expired : ℕ
  pub rejected : ℕ
  pub window_ms : ℕ

pub record QuoteStats : Type 0 where
  pub issued : ℕ
  pub accepted : ℕ
  pub expired : ℕ
  pub rejected : ℕ
  pub hit_rate_bps : ℕ
  pub window_ms : ℕ

unfoldable pub issue : Quote → QuoteRequest → QuoteCache → QuoteCache
issue q r c = record c {
  quotes = Dict.set q.quote_id (record { quote = q; request = r }) c.quotes;
  issued = c.issued + 1;
}

unfoldable pub reject : QuoteCache → QuoteCache
reject c = record c { rejected = c.rejected + 1 }

abbrev is_over : ℕ → CachedQuote → Bool
is_over now q = leb q.quote.expires_at now

-- The quotes that a sweep keeps, and the ids of the others.
unfoldable pub kept : ℕ → Dict CachedQuote → Dict CachedQuote
kept now [] = []
kept now ((id, q) ∷ m) = let rest = kept now m in if is_over now q then rest else (id, q) ∷ rest

unfoldable pub swept : ℕ → Dict CachedQuote → List String
swept now [] = []
swept now ((id, q) ∷ m) = let rest = swept now m in if is_over now q then id ∷ rest else rest

unfoldable pub sweep_expired : ℕ → QuoteCache → QuoteCache
unfolding kept swept
sweep_expired now c = record c {
  quotes = kept now c.quotes;
  expired = c.expired + length (swept now c.quotes);
}

abbrev redeemed : String → Option CachedQuote → QuoteCache → Option CachedQuote × QuoteCache
redeemed id none c = (none, c)
redeemed id (some q) c =
    (some q, record c { quotes = Dict.delete id c.quotes; accepted = c.accepted + 1 })

unfoldable pub consume : String → ℕ → QuoteCache → Option CachedQuote × QuoteCache
unfolding sweep_expired
consume id now c = let s = sweep_expired now c in redeemed id (Dict.get id s.quotes) s

unfoldable pub snapshot : ℕ → QuoteCache → QuoteStats × QuoteCache
unfolding sweep_expired
snapshot now c =
    let s = sweep_expired now c in
    (
      record {
        issued = s.issued;
        accepted = s.accepted;
        expired = s.expired;
        rejected = s.rejected;
        hit_rate_bps = if ltb 0 s.issued then s.accepted * 10_000 / s.issued else 0;
        window_ms = s.window_ms;
      },
      s,
    )

get-kept-none :
    (k : String) (now : ℕ) (m : Dict CachedQuote)
    → Dict.get k m ≡ none
    → Dict.get k (kept now m) ≡ none
unfolding Dict.get kept
get-kept-none k now [] h = refl
get-kept-none k now ((j, q) ∷ m) h = ground (arith, h, get-kept-none k now m)

-- The first quote that is kept under a key may follow an expired one of the same key.
get-kept_fresh :
    (k : String) (now : ℕ) (m : Dict CachedQuote) (q : CachedQuote)
    → Dict.get k (kept now m) ≡ some q
    → now < q.quote.expires_at
unfolding Dict.get kept
get-kept_fresh k now [] q h = ground (arith, h)
get-kept_fresh k now ((j, p) ∷ m) q h = ground (arith, h, get-kept_fresh k now m q)

consume-none :
    (id : String) (now : ℕ) (c : QuoteCache)
    → Dict.get id c.quotes ≡ none
    → (consume id now c).0 ≡ none
unfolding consume
consume-none id now c h = rw (get-kept-none id now c.quotes h) refl

consume_gone :
    (id : String) (now : ℕ) (c : QuoteCache) (p : CachedQuote)
    → Dict.get id (kept now c.quotes) ≡ some p
    → Dict.get id (consume id now c).1.quotes ≡ none
unfolding consume
consume_gone id now c p h = rw h (get-delete_self id (kept now c.quotes))

consumed :
    (id : String) (now : ℕ) (c : QuoteCache) (q : CachedQuote)
    → (consume id now c).0 ≡ some q
    → Dict.get id (kept now c.quotes) ≡ some q
unfolding consume
consumed id now c q h = elim (Option-cases (Dict.get id (kept now c.quotes))) [
  | inl e ↦ ground (arith, h, e)
  | inr (p, e) ↦ ground (arith, h, e)
]

-- A quote is redeemed at most once, and never at or after its expiry: the quote that `consume`
-- returns is still fresh, and every later `consume` of its id returns nothing until it is issued
-- again.
pub redeemed_once :
    (id : String) (now later : ℕ) (c : QuoteCache) (q : CachedQuote)
    → (consume id now c).0 ≡ some q
    → (now < q.quote.expires_at) × ((consume id later (consume id now c).1).0 ≡ none)
redeemed_once id now later c q h =
    let found = consumed id now c q h in
    (
      get-kept_fresh id now c.quotes q found,
      consume-none id later (consume id now c).1 (consume_gone id now c q found),
    )

-- A quote that is set and still fresh is kept.
get-kept-set :
    (id : String) (now : ℕ) (q : CachedQuote) (m : Dict CachedQuote)
    → now < q.quote.expires_at
    → Dict.get id (kept now (Dict.set id q m)) ≡ some q
unfolding Dict.get Dict.set kept
get-kept-set id now q [] h = ground (arith, h, str_eq_refl id)
get-kept-set id now q ((j, p) ∷ m) h = ground (arith, h, str_eq_iff j id, get-kept-set id now q m h)

-- A quote that was issued last under its id is what `consume` returns before it expires.
pub consume-issue :
    (q : Quote) (r : QuoteRequest) (now : ℕ) (c : QuoteCache)
    → now < q.expires_at
    → (consume q.quote_id now (issue q r c)).0 ≡ some (record { quote = q; request = r })
unfolding consume issue
consume-issue q r now c h =
    let e = get-kept-set q.quote_id now (record { quote = q; request = r }) c.quotes h in rw e refl
