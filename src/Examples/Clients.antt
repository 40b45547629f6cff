-- ===== src/Examples/Clients.antt =====
-- The theorems on the client (sdk/src/client.ts) and on the numbers of the Fiber node
-- (bifrostd/src/fnn/codec.ts), applied to concrete inputs.
use bitfrost.Base.{
  ◌≡◌, refl, String, true, false, ◌||◌, Option, none, some, List, [], ◌∷◌, arith, inl, inr,
  if◌then◌else◌,
}
use bitfrost.Base.Int.{ℤ, pos, ◌≤ℤ◌, ltb_ℤ, eq_ℤ, ◌+ℤ◌, ◌-ℤ◌}
use bitfrost.Base.Decimal.{big_int, to_string, int_to_string}
use bitfrost.Sdk.Types.{Order, Quote, QuoteRequest, give_side, fiber_shannon}
use bitfrost.Sdk.Canonical.{signing_digest, canonical_bytes, canonicalize, without_signature}
use bitfrost.Sdk.Signed.{unsigned_quote}
use bitfrost.Sdk.Verify.{verify_quote, is_pay_invoice}
use bitfrost.Sdk.Advertisement.{Advertisement}
use bitfrost.Sdk.Invoice.{InvoiceInfo, detect_invoice, decode_lightning, whole_sats}
use bitfrost.Orders.Ports.{Result, ok, err}
use bitfrost.Rfq.Fallible.{◌>>=◌}
use bitfrost.Sdk.Types.{range_error}
use bitfrost.Sdk.Client.{
  Client, Reply, success, json, get_quote, invoice_request, pay_any_invoice, HubQuote, key_of,
  with_keys, sort_keys, best_quote, order_event, watch_order,
}
use bitfrost.Sdk.Client.Ordering.{PaysExactly, ordered_quote_pays_invoice}
use bitfrost.Sdk.Client.Best.{Among, best_quote_is_best}
use bitfrost.Sdk.Client.Watching.{Delivered, watched-Delivered}
use bitfrost.Fnn.{encode_hex, decode_hex, u64_max}
use bitfrost.Fnn.RoundTrip.{hex_roundtrip}
use bitfrost.Examples.Swap.{demo_order}
use bitfrost.Examples.Quoting.{demo_crypto, demo_quote}
use bitfrost.Examples.Serving.{demo_decoders}

hex_roundtrip_example : (encode_hex (pos 100_000_000) u64_max >>= λ s. decode_hex s u64_max) ≡ (
    if ltb_ℤ (pos 100_000_000) (pos 0) || ltb_ℤ (pos u64_max) (pos 100_000_000)
    then err range_error
    else ok (pos 100_000_000))
hex_roundtrip_example = hex_roundtrip (pos 100_000_000) u64_max

abbrev demo_client : Client
demo_client = record { crypto = demo_crypto; decoders = demo_decoders; now = 20 }

abbrev quoting : QuoteRequest → Result (Reply Quote)
quoting req = ok (success (some demo_quote))

abbrev ordering : String → Result (Reply Order)
ordering id = ok (success (some demo_order))

invoice_paid :
    pay_any_invoice demo_client quoting ordering "lnbc1" fiber_shannon ≡ ok (demo_order, demo_quote)
unfolding pay_any_invoice detect_invoice decode_lightning whole_sats big_int ◌>>=◌ get_quote
    invoice_request json verify_quote is_pay_invoice signing_digest canonical_bytes canonicalize
    without_signature unsigned_quote to_string int_to_string ◌+ℤ◌ ◌-ℤ◌ bitfrost.Base.str_eq
    bitfrost.Sdk.Signed.verify_quote_signature bitfrost.Base.Int.quot_ℤ bitfrost.Base.Int.◌*ℤ◌
invoice_paid = refl

ordered_quote_pays_invoice_example :
    (info : InvoiceInfo) × (detect_invoice demo_decoders "lnbc1" ≡ ok info)
    × (verify_quote demo_crypto demo_quote (invoice_request info fiber_shannon) 20 info.amount
        ≡ ok tt)
    × PaysExactly info.amount demo_quote
    × (reply : Reply Order) × (ordering "quote-1" ≡ ok reply)
    × (json reply ≡ ok demo_order)
ordered_quote_pays_invoice_example =
    ordered_quote_pays_invoice demo_client quoting ordering "lnbc1" fiber_shannon demo_order
      demo_quote invoice_paid

abbrev demo_ad : Advertisement
demo_ad = record {
  protocol = "bifrost/0.1";
  hub_pubkey = "hub";
  endpoint = "http://hub";
  pairs = [];
  fiber_node_id = "f";
  lightning_node_id = "l";
  issued_at = 1;
  ttl_ms = 100;
  signature = "signature";
}

abbrev fair : HubQuote
fair = record { hub = demo_ad; quote = demo_quote }

abbrev poor : HubQuote
poor = record { hub = demo_ad; quote = record demo_quote { get_amount = "99" } }

abbrev offers : List HubQuote
offers = poor ∷ fair ∷ []

fair_picked : best_quote offers give_side ≡ ok fair
unfolding best_quote with_keys sort_keys key_of big_int
fair_picked = refl

fair_key : key_of give_side fair ≡ some (pos 100)
unfolding key_of big_int
fair_key = refl

poor_key : key_of give_side poor ≡ some (pos 99)
unfolding key_of big_int
poor_key = refl

best_quote_is_best_example : Among fair offers × (pos 99 ≤ℤ pos 100)
best_quote_is_best_example =
    best_quote_is_best give_side offers fair poor (pos 100) (pos 99) fair_picked (inl refl) fair_key
      poor_key

watched-Delivered_example : Delivered "order-1" [] (
    watch_order "order-1" []
      (some (order_event demo_order) ∷ none ∷ some (order_event demo_order) ∷ []))
watched-Delivered_example =
    watched-Delivered "order-1" []
      (some (order_event demo_order) ∷ none ∷ some (order_event demo_order) ∷ [])
