-- ===== src/Sdk/Client.antt =====
-- `Bifrost` of sdk/src/client.ts, and `BifrostError.fromWire` of sdk/src/errors.ts. What `fetch` and
-- the stream bring back are arguments; the body of an answer that is not refused has the shape that
-- the code takes it to have.
pub mod Ordering
pub mod Best
pub mod Watching
use Prim.Native.String.{◌++◌ as append}
use bitfrost.Base.{
  ℕ, String, Bool, true, false, not, Option, none, some, List, [], ◌∷◌, leb, str_eq, some_of,
  if◌then◌else◌,
}
use bitfrost.Base.Int.{ℤ, pos, leb_ℤ, ◌-ℤ◌}
use bitfrost.Base.Decimal.{big_int, to_string, int_to_string}
use bitfrost.Sdk.Types.{
  Network, fiber, lightning, AssetRef, lightning_sat, fiber_shannon, Pair, Quote, QuoteRequest,
  Side, give_side, get_side, pay_invoice, Order, ErrorCode, ProtocolError, Thrown, bifrost,
  protocol_version, internal, invoice_invalid, pricing_unavailable, syntax_error, code_text,
  state_text, is_terminal, pair_unsupported, amount_out_of_bounds, inventory_insufficient,
  invoice_mismatch, hash_algo_unsupported, quote_expired, quote_unknown, expiry_invariant_violation,
  no_route, outgoing_timeout, outgoing_failed, hub_overexposed, rate_limited, unauthorized,
}
use bitfrost.Sdk.Signed.{Crypto}
use bitfrost.Sdk.Verify.{verify_quote}
use bitfrost.Sdk.Advertisement.{Advertisement, verify_advertisement}
use bitfrost.Sdk.Invoice.{Decoders, InvoiceInfo, detect_invoice}
use bitfrost.Orders.Ports.{Result, ok, err}
use bitfrost.Rfq.Fallible.{◌>>=◌, ◌>>◌, refuse, when}

-- An error as it stands in an answer: its code is any text.
pub record WireError : Type 0 where
  pub code : String
  pub message : String
  pub hint : Option String
  pub retryable : Bool

abbrev error_codes : List ErrorCode
error_codes =
    pair_unsupported ∷ amount_out_of_bounds ∷ inventory_insufficient ∷ pricing_unavailable
    ∷ invoice_invalid ∷ invoice_mismatch ∷ hash_algo_unsupported ∷ quote_expired ∷ quote_unknown
    ∷ expiry_invariant_violation ∷ no_route ∷ outgoing_timeout ∷ outgoing_failed ∷ hub_overexposed
    ∷ rate_limited ∷ unauthorized ∷ internal ∷ []

abbrev code_among : String → List ErrorCode → ErrorCode
code_among text [] = internal
code_among text (c ∷ cs) = if str_eq (code_text c) text then c else code_among text cs

unfoldable pub from_wire : WireError → Thrown
unfolding code_text
from_wire e = bifrost (record {
  code = code_among e.code error_codes;
  message = e.message;
  hint = e.hint;
  retryable = e.retryable;
})

-- A response: `res.ok` with its body, `none` where there is none, or another status with the `error`
-- of its body.
pub data Reply (A : Type 0) : Type 0 where
  success : Option A → Reply A
  refusal : ℕ → Option WireError → Reply A

module _ {A : Type 0} where
  unfoldable pub json : Reply A → Result A
  unfolding from_wire
  json (success none) = refuse internal "empty response body" true
  json (success (some a)) = ok a
  json (refusal status none) = refuse internal "HTTP error" (leb 500 status)
  json (refusal status (some e)) = err (from_wire e)

pub record Client : Type 0 where
  pub crypto : Crypto
  pub decoders : Decoders
  pub now : ℕ

-- `getQuote`, with what `fetch` brought.
unfoldable pub get_quote : Client → QuoteRequest → Option ℤ → Result (Reply Quote) → Result Quote
unfolding json verify_quote ◌>>=◌
get_quote c request amount fetched = do
  reply ← fetched
  quote ← json reply
  verify_quote c.crypto quote request c.now amount
  ok quote

abbrev is_ok : Result (Unit {0}) → Bool
is_ok (ok u) = true
is_ok (err e) = false

-- The advertisements that verify.
unfoldable pub fresh_ads : Client → List Advertisement → List Advertisement
unfolding verify_advertisement
fresh_ads c [] = []
fresh_ads c (ad ∷ ads) =
    let rest = fresh_ads c ads in
    if is_ok (verify_advertisement c.crypto ad c.now) then ad ∷ rest else rest

pub record HubQuote : Type 0 where
  pub hub : Advertisement
  pub quote : Quote

abbrev fulfilled : Advertisement → Result Quote → List HubQuote → List HubQuote
fulfilled hub (ok q) rest = record { hub = hub; quote = q } ∷ rest
fulfilled hub (err e) rest = rest

-- `getQuotes`.
unfoldable pub get_quotes :
    Client
    → QuoteRequest
    → (Advertisement → Result (Reply Quote))
    → List Advertisement
    → List HubQuote
unfolding get_quote
get_quotes c request fetch [] = []
get_quotes c request fetch (hub ∷ hubs) =
    fulfilled hub (get_quote c request none (fetch hub)) (get_quotes c request fetch hubs)

abbrev negated : Option ℤ → Option ℤ
negated none = none
negated (some n) = some (pos 0 -ℤ n)

-- What `bestQuote` compares.
unfoldable pub key_of : Side → HubQuote → Option ℤ
unfolding big_int ◌-ℤ◌
key_of give_side q = big_int q.quote.get_amount
key_of get_side q = negated (big_int q.quote.give_amount)

abbrev cons_key : Option ℤ → HubQuote → Option (List (ℤ × HubQuote)) → Option (List (ℤ × HubQuote))
cons_key (some k) q (some rest) = some ((k, q) ∷ rest)
cons_key _ q _ = none

unfoldable pub with_keys : Side → List HubQuote → Option (List (ℤ × HubQuote))
unfolding key_of
with_keys side [] = some []
with_keys side (q ∷ qs) = cons_key (key_of side q) q (with_keys side qs)

-- The stable sort by descending keys: an earlier quote goes before the later ones that are not better.
insert_key : ℤ × HubQuote → List (ℤ × HubQuote) → List (ℤ × HubQuote)
insert_key (k, q) [] = (k, q) ∷ []
insert_key (k, q) ((l, p) ∷ rest) =
    let later = insert_key (k, q) rest in
    if leb_ℤ l k then (k, q) ∷ (l, p) ∷ rest else (l, p) ∷ later

unfoldable pub sort_keys : List (ℤ × HubQuote) → List (ℤ × HubQuote)
unfolding insert_key
sort_keys [] = []
sort_keys (x ∷ xs) = insert_key x (sort_keys xs)

abbrev first_of : List (ℤ × HubQuote) → Result HubQuote
first_of [] = refuse pricing_unavailable "no valid quotes received" true
first_of ((k, q) ∷ rest) = ok q

abbrev sorted_first : Option (List (ℤ × HubQuote)) → Result HubQuote
sorted_first none = err syntax_error
sorted_first (some ks) = first_of (sort_keys ks)

-- `bestQuote`. A single quote is compared with nothing.
unfoldable pub best_quote : List HubQuote → Side → Result HubQuote
unfolding with_keys sort_keys
best_quote [] side = refuse pricing_unavailable "no valid quotes received" true
best_quote (q ∷ []) side = ok q
best_quote (q ∷ p ∷ rest) side = sorted_first (with_keys side (q ∷ p ∷ rest))

-- The asset that the invoice asks for.
abbrev asset_for : Network → AssetRef
asset_for lightning = lightning_sat
asset_for fiber = fiber_shannon

abbrev value_of : Option ℤ → String
value_of none = "0"
value_of (some n) = int_to_string n

unfoldable pub invoice_request : InvoiceInfo → AssetRef → QuoteRequest
unfolding int_to_string
invoice_request info give = record {
  protocol = protocol_version;
  pair = record { give = give; gets = asset_for info.network };
  side = get_side;
  value = value_of info.amount;
  mode = pay_invoice;
  target_invoice = some info.raw;
}

-- An amount in msat that is no amount in sat.
abbrev is_sub_sat : InvoiceInfo → Bool
is_sub_sat info = elim info.amount_msat [
  | none ↦ false
  | some msat ↦ elim info.amount [ none ↦ true | some n ↦ false ]
]

-- `payAnyInvoice`, with what `fetch` brings for a request and for the id of a quote.
unfoldable pub pay_any_invoice :
    Client
    → (QuoteRequest → Result (Reply Quote))
    → (String → Result (Reply Order))
    → String
    → AssetRef
    → Result (Order × Quote)
unfolding detect_invoice get_quote invoice_request json ◌>>=◌
pay_any_invoice c quotes orders invoice give = do
  info ← detect_invoice c.decoders invoice
  when (is_sub_sat info) (refuse invoice_invalid "invoice amount is not sat-exact" false)
  quote ← get_quote c (invoice_request info give) info.amount (quotes (invoice_request info give))
  reply ← orders quote.quote_id
  order ← json reply
  ok (order, quote)

pub data StreamEvent : Type 0 where
  order_event : Order → StreamEvent
  quote_expired_event : String → StreamEvent

abbrev pub frame_key : Order → String
frame_key o =
    append o.order_id
      (append ":" (append (to_string o.updated_at) (append ":" (state_text o.state))))

-- `watchOrder` until the stream is closed: the orders that it yields of the frames, malformed ones
-- being `none`.
unfoldable pub watch_order : String → List String → List (Option StreamEvent) → List Order
unfolding to_string state_text
watch_order id seen [] = []
watch_order id seen (none ∷ frames) = watch_order id seen frames
watch_order id seen (some (quote_expired_event q) ∷ frames) = watch_order id seen frames
watch_order id seen (some (order_event o) ∷ frames) =
    let skipped = watch_order id seen frames in
    let rest = watch_order id (frame_key o ∷ seen) frames in
    if not (str_eq o.order_id id)
    then skipped
    else if some_of (str_eq (frame_key o)) seen
    then skipped
    else if is_terminal o.state
    then o ∷ []
    else o ∷ rest
