-- ===== src/Registry.antt =====
-- The registry of advertisements: registry/src/db.ts and registry/src/server.ts. The table is a
-- dictionary by the hub's key, and a body that is not of the advertisement's shape, or carries a
-- rate, never becomes an `Advertisement`; the other checks of `malformedReason` are here.
use bitfrost.Base.{
  ℕ, ◌+◌, ◌≤◌, ◌≡◌, String, Bool, true, false, not, ◌&&◌, ◌||◌, Option, none, some, List, [], ◌∷◌,
  leb, ltb, ◌==◌, length, str_eq, select, some_of, arith, if◌then◌else◌, String-cases, Bool-cases,
  inl, inr,
}
use bitfrost.Base.Codes.{codes, is_digit, is_lower_hex, all_codes, starts_with}
use bitfrost.Base.Int.{ℤ, ltb_ℤ}
use bitfrost.Base.Decimal.{big_int}
use bitfrost.Base.Dict
use bitfrost.Base.Dict.{Dict, get-set_self, get-set_ne}
use bitfrost.Sdk.Types.{AssetRef, lightning_sat, fiber_shannon, fiber_udt, protocol_version}
use bitfrost.Sdk.Signed.{Crypto}
use bitfrost.Sdk.Advertisement.{AdvertisedPair, Advertisement, verify_ad_signature}

abbrev max_ad_age_ms : ℕ
max_ad_age_ms = 300_000

abbrev max_clock_skew_ms : ℕ
max_clock_skew_ms = 60_000

-- `/^[0-9a-f]{n}$/`.
abbrev is_hex_of : ℕ → String → Bool
is_hex_of n s = length (codes s) == n && all_codes is_lower_hex (codes s)

abbrev numeral : List ℕ → Bool
numeral [] = false
numeral (c ∷ []) = is_digit c
numeral (c ∷ d ∷ cs) = is_digit c && (not (c == b'0') && all_codes is_digit (d ∷ cs))

-- `/^(0|[1-9][0-9]*)$/`.
unfoldable pub is_amount : String → Bool
is_amount s = numeral (codes s)

-- Whether one amount, as a number, is above another; a text that is no number is above nothing.
abbrev above : Option ℤ → Option ℤ → Bool
above none b = false
above (some a) none = false
above (some a) (some b) = ltb_ℤ b a

abbrev is_bad_pair : AdvertisedPair → Bool
is_bad_pair p =
    not (is_amount p.min_amount && is_amount p.max_amount)
    || above (big_int p.min_amount) (big_int p.max_amount)

-- Whether `malformedReason` gives a reason.
unfoldable pub is_malformed : Advertisement → Bool
unfolding is_amount
is_malformed ad =
    not (str_eq ad.protocol protocol_version)
    || (not (is_hex_of 64 ad.hub_pubkey)
        || (not (is_hex_of 128 ad.signature)
            || (not (starts_with (codes "https://") (codes ad.endpoint))
                || (length ad.pairs == 0 || (some_of is_bad_pair ad.pairs || ad.ttl_ms == 0)))))

-- A row that is present is replaced only by an advertisement that is not older.
abbrev replaces : Advertisement → Option Advertisement → Bool
replaces ad none = true
replaces ad (some old) = leb old.issued_at ad.issued_at

unfoldable pub upsert : Advertisement → Dict Advertisement → Dict Advertisement
upsert ad ads =
    if replaces ad (Dict.get ad.hub_pubkey ads) then Dict.set ad.hub_pubkey ad ads else ads

unfoldable pub fresh : ℕ → Dict Advertisement → List Advertisement
fresh now ads = select (λ ad. ltb now (ad.issued_at + ad.ttl_ms)) (Dict.values ads)

pub data Reply : Type 0 where
  published malformed too_old from_the_future unsigned : Reply

abbrev genuine : Option Bool → Bool
genuine none = false
genuine (some b) = b

abbrev judged :
    Bool → Bool → Bool → Bool → Dict Advertisement → Dict Advertisement → Reply × Dict Advertisement
judged bad old early signed ads new =
    if bad
    then (malformed, ads)
    else if old
    then (too_old, ads)
    else if early
    then (from_the_future, ads)
    else if not signed
    then (unsigned, ads)
    else (published, new)

-- `POST /ads`.
unfoldable pub post_ads :
    Crypto → Advertisement → ℕ → Dict Advertisement → Reply × Dict Advertisement
unfolding is_malformed upsert verify_ad_signature
post_ads c ad now ads =
    judged (is_malformed ad) (ltb (ad.issued_at + max_ad_age_ms) now)
      (ltb (now + max_clock_skew_ms) ad.issued_at) (genuine (verify_ad_signature c ad)) ads
      (upsert ad ads)

pub record Filter : Type 0 where
  pub give_network : Option String
  pub give_unit : Option String
  pub get_network : Option String
  pub get_unit : Option String
  pub amount : Option String

abbrev network_text : AssetRef → String
network_text lightning_sat = "lightning"
network_text fiber_shannon = "fiber"
network_text (fiber_udt s) = "fiber"

abbrev unit_text : AssetRef → String
unit_text lightning_sat = "sat"
unit_text fiber_shannon = "shannon"
unit_text (fiber_udt s) = "udt"

unfoldable pub asset_matches : AssetRef → String → String → Bool
asset_matches a network unit = str_eq (network_text a) network && str_eq (unit_text a) unit

abbrev or_own : Option String → String → String
or_own none own = own
or_own (some unit) own = unit

-- An absent or empty network asks for nothing.
abbrev side_matches : AssetRef → Option String → Option String → Bool
side_matches a none unit = true
side_matches a (some network) unit =
    if str_eq network "" then true else asset_matches a network (or_own unit (unit_text a))

abbrev amount_matches : AdvertisedPair → Option ℤ → Bool
amount_matches p none = true
amount_matches p (some n) =
    not (above (big_int p.min_amount) (some n)) && not (above (some n) (big_int p.max_amount))

abbrev listed : ℕ → Filter → Option ℤ → Dict Advertisement → List Advertisement
listed now q amount ads =
    select
      (λ ad.
        some_of
          (λ p.
            side_matches p.give q.give_network q.give_unit
            && (side_matches p.gets q.get_network q.get_unit && amount_matches p amount))
          ad.pairs)
      (fresh now ads)

abbrev with_amount : ℕ → Filter → Option String → Dict Advertisement → Option (List Advertisement)
with_amount now q none ads = some (listed now q none ads)
with_amount now q (some amount) ads =
    if is_amount amount then some (listed now q (big_int amount) ads) else none

-- `GET /ads`; `none` is the refusal of an amount that is no numeral.
unfoldable pub get_ads : ℕ → Filter → Dict Advertisement → Option (List Advertisement)
unfolding fresh asset_matches is_amount
get_ads now q ads = with_amount now q q.amount ads

-- The advertisement of a hub, and how it was issued.
abbrev pub NotOlder : Option Advertisement → Option Advertisement → Type 0
NotOlder none new = Unit
NotOlder (some old) none = ⊥
NotOlder (some old) (some new) = old.issued_at ≤ new.issued_at

NotOlder-refl : (o : Option Advertisement) → NotOlder o o
NotOlder-refl none = tt
NotOlder-refl (some ad) = omega arith

replaces-NotOlder :
    (ad : Advertisement) (o : Option Advertisement) → replaces ad o ≡ true → NotOlder o (some ad)
replaces-NotOlder ad none h = tt
replaces-NotOlder ad (some old) h = ground (arith, h)

set-NotOlder :
    (k : String) (ad : Advertisement) (ads : Dict Advertisement)
    → replaces ad (Dict.get ad.hub_pubkey ads) ≡ true
    → NotOlder (Dict.get k ads) (Dict.get k (Dict.set ad.hub_pubkey ad ads))
set-NotOlder k ad ads h = elim (String-cases ad.hub_pubkey k) [
  | inl e ↦
      rw (← e, get-set_self ad.hub_pubkey ad ads)
        (replaces-NotOlder ad (Dict.get ad.hub_pubkey ads) h)
  | inr ne ↦ rw (get-set_ne ad.hub_pubkey k ad ads ne) (NotOlder-refl (Dict.get k ads))
]

upsert-NotOlder :
    (k : String) (ad : Advertisement) (ads : Dict Advertisement)
    → NotOlder (Dict.get k ads) (Dict.get k (upsert ad ads))
unfolding upsert
upsert-NotOlder k ad ads = elim (Bool-cases (replaces ad (Dict.get ad.hub_pubkey ads))) [
  | inl e ↦ rw e (set-NotOlder k ad ads e)
  | inr e ↦ rw e (NotOlder-refl (Dict.get k ads))
]

either-NotOlder :
    (k : String) (ads : Dict Advertisement) (b : Bool) (x y : Reply × Dict Advertisement)
    → NotOlder (Dict.get k ads) (Dict.get k x.1)
    → NotOlder (Dict.get k ads) (Dict.get k y.1)
    → NotOlder (Dict.get k ads) (Dict.get k (if b then x else y).1)
either-NotOlder k ads true x y hx hy = hx
either-NotOlder k ads false x y hx hy = hy

-- Publishing never regresses: whatever is posted, a hub that has an advertisement keeps one, and it
-- is the old one or one that was not issued before it.
pub published-NotOlder :
    (c : Crypto) (ad : Advertisement) (now : ℕ) (ads : Dict Advertisement) (k : String)
    → NotOlder (Dict.get k ads) (Dict.get k (post_ads c ad now ads).1)
unfolding post_ads
published-NotOlder c ad now ads k =
    let kept = NotOlder-refl (Dict.get k ads) in
    either-NotOlder k ads (is_malformed ad) _ _ kept (
      either-NotOlder k ads (ltb (ad.issued_at + max_ad_age_ms) now) _ _ kept (
        either-NotOlder k ads (ltb (now + max_clock_skew_ms) ad.issued_at) _ _ kept (
          either-NotOlder k ads (not (genuine (verify_ad_signature c ad))) _ _ kept
            (upsert-NotOlder k ad ads))))

genuine-true : (o : Option Bool) → genuine o ≡ true → o ≡ some true
genuine-true none h = ground (arith, h)
genuine-true (some b) h = ground (arith, h)

checks_passed :
    (a b c d : Bool) (ads new : Dict Advertisement)
    → (judged a b c d ads new).0 ≡ published
    → (a ≡ false) × (b ≡ false) × (c ≡ false) × (d ≡ true)
checks_passed a b c d ads new h = ground (arith, h)

-- An advertisement is published only if it is well formed, its signature verifies, and it was issued
-- at most 5 minutes ago and at most 60 seconds ahead.
pub published_is_genuine :
    (c : Crypto) (ad : Advertisement) (now : ℕ) (ads : Dict Advertisement)
    → (post_ads c ad now ads).0 ≡ published
    → (is_malformed ad ≡ false)
      × (verify_ad_signature c ad ≡ some true)
      × (now ≤ ad.issued_at + 300_000)
      × (ad.issued_at ≤ now + 60_000)
unfolding post_ads
published_is_genuine c ad now ads h =
    let (formed, recent, ready, signed) =
      checks_passed (is_malformed ad) (ltb (ad.issued_at + max_ad_age_ms) now)
        (ltb (now + max_clock_skew_ms) ad.issued_at) (genuine (verify_ad_signature c ad)) ads
        (upsert ad ads) h in
    (formed, genuine-true _ signed, ground (arith, recent), ground (arith, ready))
