-- ===== src/Examples/Serving.antt =====
-- The theorems on the HTTP api and on invoices, applied to concrete inputs
-- (bifrostd/src/api/server.ts, sdk/src/invoice.ts).
use Prim.Native.String.{◌++◌ as append}
use bitfrost.Base.{
  ◌≡◌, refl, inr, String, true, false, none, some, [], ◌∷◌, length, ◌≤◌, ◌+◌, arith, str_eq, truthy,
}
use bitfrost.Base.Dict
use bitfrost.Base.Int.{pos, ◌+ℤ◌}
use bitfrost.Base.Decimal.{big_int, to_string, int_to_string}
use bitfrost.Sdk.Types.{
  Order, QuoteRequest, pay_invoice, fiber, lightning, pending, waiting, fiber_to_ln, ln_to_fiber,
  protocol_version,
}
use bitfrost.Sdk.Invoice.{
  Decoders, InvoiceInfo, hash_section, amount_section, detect_invoice, decode_lightning, whole_sats,
}
use bitfrost.Sdk.Invoice.Hash.{Accepted, detected_hash_passes}
use bitfrost.Orders.Ports.{ok}
use bitfrost.Rfq.Fallible.{◌>>=◌}
use bitfrost.Api.Legs.{LegPlan, plan_legs, same_network, lightning_to_fiber, ceil_blocks}
use bitfrost.Api.Legs.Plans.{LegAmounts, planned_amounts}
use bitfrost.Sdk.Expiry.{incoming_blocks_to_ms, outgoing_blocks_to_ms, expiry_invariant_holds}
use bitfrost.Examples.Swap.{zero_hash, demo_host, demo_world, demo_order}
use bitfrost.Orders.Store
use bitfrost.Orders.Lifecycle.{cannot_cancel, new_order}
use bitfrost.Examples.Theorems.{demo-IsValid, demo_legs, demo_invoice}
use bitfrost.Base.Int.{◌-ℤ◌}
use bitfrost.Sdk.Types.{network_of}
use bitfrost.Sdk.Canonical.{signing_digest, canonical_bytes, canonicalize, without_signature}
use bitfrost.Sdk.Signed.{unsigned_quote}
use bitfrost.Sdk.Verify.{verify_quote, is_pay_invoice}
use bitfrost.Rfq.Rational.{normalize, gcd, mul_div_floor, mul_div_ceil, apply_ppm}
use bitfrost.Rfq.Pricing.{static_peg}
use bitfrost.Rfq.Minimal.{minimal_gross, walk_up, walk_down, net}
use bitfrost.Rfq.Service.{
  quote, validate, issue, issue_at, amounts_for, get_amounts, admit, draft, sign,
}
use bitfrost.Orders.Store.{open_store, replay}
use bitfrost.Orders.Store.Keys.{IsValid, no_orders-IsValid}
use bitfrost.Orders.Lifecycle.{create_order}
use bitfrost.Api.Quotes.{QuoteCache, consume}
use bitfrost.Api.Inventory.{fiber_liquidity, lightning_liquidity}
use bitfrost.Api.Legs.{fiber_to_lightning}
use bitfrost.Api.Server.{Hub, answer, quote_body, order_body}
use bitfrost.Api.Server.Quoting.{
  Channels, handle_quotes, liquidity_of, both_liquidities, invoice_amount,
}
use bitfrost.Api.Server.Quoting.Redeemable.{answered_quote_redeemable}
use bitfrost.Api.Server.Ordering.{OrderCreate, handle_create_order, plan_for, order_params}
use bitfrost.Api.Server.Ordering.Planned.{QuotedOrder, answered_order_is_quoted}
use bitfrost.Api.Server.Cancelling.{CancelAnswer, handle_cancel, cancel_answers}
use bitfrost.Api.Server.Paging.{page}
use bitfrost.Api.Server.Paging.Walk.{walk, pages_cover, page_bounded}
use bitfrost.Api.Server.Routes.{
  Request, Served, route, order_route, cancel_route, serve, order_by_id, cancel_order_path,
}
use bitfrost.Api.Server.Routes.Reading.{IsPathSegment, get_changes_no_order, order_endpoints}
use bitfrost.Examples.Quoting.{demo_crypto, demo_config, demo_request, demo_quote}

abbrev zeros : String
zeros = "0000000000000000000000000000000000000000000000000000000000000000"

abbrev pub demo_decoders : Decoders
demo_decoders = record {
  bolt11 = λ s. some (hash_section zeros ∷ amount_section "100000" ∷ []);
  bech32m = λ s. none;
}

abbrev pub demo_info : InvoiceInfo
demo_info = record {
  network = lightning;
  raw = "lnbc1";
  payment_hash = some zeros;
  amount = some (pos 100);
  amount_msat = some (pos 100_000);
  expires_at = none;
}

pub demo_detected : detect_invoice demo_decoders "lnbc1" ≡ ok demo_info
unfolding detect_invoice decode_lightning whole_sats big_int ◌>>=◌ str_eq
demo_detected = refl

detected_hash_passes_example : Accepted (some zeros)
detected_hash_passes_example = detected_hash_passes demo_decoders "lnbc1" demo_info demo_detected

abbrev demo_plan : LegPlan
demo_plan = record {
  direction = ln_to_fiber;
  payment_hash = "0x00";
  incoming = record { network = lightning; amount = pos 100; tlc_expiry_at = 7 + 79_200_000 };
  outgoing = record {
    network = fiber;
    invoice = "fibt1";
    amount = pos 103;
    tlc_expiry_at = 7 + 64_800_000;
  };
}

demo_planned : plan_legs demo_legs demo_invoice (ok 40) ≡ ok demo_plan
unfolding plan_legs same_network lightning_to_fiber ceil_blocks incoming_blocks_to_ms str_eq
demo_planned = refl

planned_amounts_example :
    LegAmounts demo_legs demo_plan lightning fiber
    × (demo_plan.outgoing.invoice ≡ demo_legs.target_invoice)
    × (hash : String) × (truthy demo_invoice.payment_hash ≡ some hash)
    × (demo_plan.payment_hash ≡ append "0x" hash)
planned_amounts_example = planned_amounts demo_legs demo_invoice (ok 40) demo_plan demo_planned

abbrev pub paying : QuoteRequest
paying = record demo_request { mode = pay_invoice; target_invoice = some "lnbc1" }

abbrev demo_channels : Channels
demo_channels = record {
  fiber = ok (
      record { state = "ChannelReady"; local_balance = pos 1_000; offered_tlc_balance = pos 0 }
      ∷ []);
  lightning = ok (
      record {
        active = true;
        local_balance_sat = pos 1_000;
        local_chan_reserve_sat = pos 0;
        unsettled_balance_sat = pos 0;
      }
      ∷ []);
}

abbrev no_quotes : QuoteCache
no_quotes = record {
  quotes = [];
  issued = 0;
  accepted = 0;
  expired = 0;
  rejected = 0;
  window_ms = 3_600_000;
}

quote_answered :
    (handle_quotes demo_config demo_decoders demo_channels (some paying) no_quotes).0
    ≡ answer (quote_body demo_quote)
unfolding handle_quotes both_liquidities liquidity_of fiber_liquidity lightning_liquidity network_of
    invoice_amount detect_invoice decode_lightning whole_sats is_pay_invoice quote validate issue
    issue_at amounts_for get_amounts admit draft sign ◌>>=◌ static_peg apply_ppm normalize gcd
    mul_div_floor mul_div_ceil minimal_gross walk_up walk_down net signing_digest canonical_bytes
    canonicalize without_signature unsigned_quote big_int to_string str_eq ◌+ℤ◌ ◌-ℤ◌
quote_answered = refl

paying_amount : invoice_amount demo_decoders paying ≡ some (some (pos 100))
unfolding invoice_amount detect_invoice decode_lightning whole_sats big_int is_pay_invoice ◌>>=◌
    str_eq
paying_amount = refl

answered_quote_redeemable_example :
    (verify_quote demo_crypto demo_quote paying 20 (some (pos 100)) ≡ ok tt)
    × ((consume "quote-1" 20
          (handle_quotes demo_config demo_decoders demo_channels (some paying) no_quotes).1).0
        ≡ some (record { quote = demo_quote; request = paying }))
answered_quote_redeemable_example =
    answered_quote_redeemable demo_config demo_decoders paying no_quotes demo_quote demo_channels 20
      (some (pos 100)) (some (pos 100)) (λ m. refl) quote_answered (omega arith) paying_amount
      (inr (inr (refl, refl)))

abbrev demo_hub : Hub
demo_hub = record {
  world = record demo_world { store = open_store [] };
  cache = record no_quotes {
    quotes = ("quote-1", record { quote = demo_quote; request = paying }) ∷ [];
  };
  coordinator = record { controllers = []; pending = []; pumps = [] };
  rejections = [];
}

abbrev demo_body : OrderCreate
demo_body = record { protocol = protocol_version; quote_id = some "quote-1" }

abbrev served_order : Order
served_order = record {
  order_id = "order-1";
  quote_id = "quote-1";
  direction = fiber_to_ln;
  payment_hash = zero_hash;
  state = pending;
  incoming = record {
    network = fiber;
    invoice = "fibt1";
    amount = "103";
    tlc_expiry_at = 61_200_008;
    status = waiting;
    preimage = none;
  };
  outgoing = record {
    network = lightning;
    invoice = "lnbc1";
    amount = "100";
    tlc_expiry_at = 48_000_008;
    status = waiting;
    preimage = none;
  };
  failure = none;
  created_at = 4;
  updated_at = 6;
}

order_answered :
    (handle_create_order demo_host demo_decoders (ok 40) 8 [] (some demo_body) demo_hub).0
    ≡ answer (order_body served_order)
unfolding handle_create_order consume Dict.get Dict.set plan_for order_params detect_invoice
    decode_lightning whole_sats big_int int_to_string to_string str_eq plan_legs same_network
    fiber_to_lightning outgoing_blocks_to_ms expiry_invariant_holds create_order
    bitfrost.Orders.Lifecycle.request_order bitfrost.Orders.Lifecycle.issue_invoice
    bitfrost.Orders.History.Jobs.run_jobs open_store replay demo_world is_pay_invoice network_of
    bitfrost.Orders.Preimage.is_hash256 bitfrost.Orders.World.◌>>=◌ bitfrost.Orders.World.now
    bitfrost.Orders.World.create bitfrost.Orders.Store.create bitfrost.Orders.World.ask
    bitfrost.Orders.World.transition bitfrost.Orders.Store.transition
    bitfrost.Orders.Marks.mark_invoice
order_answered = refl

hub-IsValid : IsValid demo_hub.world.store.index
unfolding open_store replay
hub-IsValid = no_orders-IsValid

answered_order_is_quoted_example :
    (id : String) × (truthy demo_body.quote_id ≡ some id)
    × QuotedOrder demo_host demo_decoders
        (ok 40)
        8
        []
        served_order
        id
        demo_hub
        (handle_create_order demo_host demo_decoders (ok 40) 8 [] (some demo_body) demo_hub).1
answered_order_is_quoted_example =
    answered_order_is_quoted demo_host demo_decoders (ok 40) 8 [] served_order demo_body demo_hub
      hub-IsValid order_answered

abbrev busy_hub : Hub
busy_hub = record demo_hub { world = demo_world }

cancel_answers_example :
    CancelAnswer demo_host "order-1" busy_hub
      (Store.find "order-1" busy_hub.world.store)
      (handle_cancel demo_host "order-1" busy_hub)
cancel_answers_example = cancel_answers demo_host "order-1" busy_hub demo-IsValid

pages_cover_example :
    walk 3 none (some "1") (demo_order ∷ served_order ∷ []) ≡ demo_order ∷ served_order ∷ []
pages_cover_example = pages_cover (some "1") (demo_order ∷ served_order ∷ [])

page_bounded_example :
    length (page (some "-1") (some "99") (demo_order ∷ served_order ∷ [])).orders ≤ 50
page_bounded_example = page_bounded (some "-1") (some "99") (demo_order ∷ served_order ∷ [])

order-1-IsPathSegment : IsPathSegment "order-1"
unfolding str_eq
order-1-IsPathSegment = (refl, refl)

order_endpoints_example :
    (route "GET" (order_by_id "order-1") ≡ order_route "order-1")
    × (route "POST" (cancel_order_path "order-1") ≡ cancel_route "order-1")
order_endpoints_example = order_endpoints (λ url. url) "order-1" (λ p h. refl) order-1-IsPathSegment

abbrev demo_served : Served
demo_served = record {
  service = demo_config;
  host = demo_host;
  decoders = demo_decoders;
  channels = demo_channels;
  cltv = ok 40;
  now = 8;
  interim = [];
  pathname = λ url. url;
  max_incoming_hold_ms = 1_000;
  fnn_info = none;
  lnd_info = none;
  demo_enabled = false;
  lnd_payee = none;
  fnn_client = none;
}

abbrev listing : Request
listing = record {
  method = "GET";
  url = "/v1/orders";
  state = none;
  cursor = none;
  limit = none;
  amt = none;
  memo = none;
  quote_request = none;
  order_create = none;
  pay_body = none;
}

get_changes_no_order_example : (serve demo_served listing busy_hub).1.world ≡ demo_world
get_changes_no_order_example = get_changes_no_order demo_served listing busy_hub refl
