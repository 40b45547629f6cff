-- ===== src/Examples/Quoting.antt =====
-- A quote from a hub with a static peg: an example of `QuoteService`
-- (bifrostd/src/rfq/quote-service.ts).
use bitfrost.Base.{true, none, []}
use bitfrost.Base.Int.{pos}
use bitfrost.Sdk.Types.{
  Quote, QuoteRequest, fiber_shannon, lightning_sat, get_side, receive, protocol_version,
}
use bitfrost.Sdk.Signed.{Crypto}
use bitfrost.Rfq.Pricing.{PricingContext, StaticPegConfig, static_peg}
use bitfrost.Rfq.Service.{QuoteServiceConfig}

-- A scheme that accepts every signature.
abbrev pub demo_crypto : Crypto
demo_crypto = record {
  stringify = λ s. s;
  utf8 = λ s. [];
  sha256 = λ bytes. bytes;
  schnorr_sign = λ m. "signature";
  schnorr_verify = λ s m key. true;
}

abbrev pub demo_peg : StaticPegConfig
demo_peg = record {
  rate = record { num = 1; den = 1 };
  spread_ppm = 0;
  hub_fee_ppm = 1_000;
  flat_fee = 2;
}

abbrev pub demo_config : QuoteServiceConfig
demo_config = record {
  crypto = demo_crypto;
  hub_pubkey = "hub";
  strategy = static_peg demo_peg;
  quote_ttl_ms = 30_000;
  max_incoming_hold_ms = 1_000;
  min_safety_delta_ms = 10;
  est_network_fee = λ req. 1;
  min_amount = 1;
  max_amount = 1_000_000;
  supports_pair = none;
  now = 7;
  quote_id = "quote-1";
}

abbrev pub demo_request : QuoteRequest
demo_request = record {
  protocol = protocol_version;
  pair = record { give = fiber_shannon; gets = lightning_sat };
  side = get_side;
  value = "100";
  mode = receive;
  target_invoice = none;
}

abbrev pub demo_context : PricingContext
demo_context = record {
  inventory = record { give_available = pos 1_000; get_available = pos 1_000 };
  in_flight_exposure = pos 0;
  now = 7;
  feed_rate = none;
  feed_updated_at = none;
}

-- The quote that the hub answers.
abbrev pub demo_quote : Quote
demo_quote = record {
  protocol = "bifrost/0.1";
  quote_id = "quote-1";
  pair = record { give = fiber_shannon; gets = lightning_sat };
  rate = record { num = "1"; den = "1" };
  give_amount = "103";
  get_amount = "100";
  fee_breakdown = record { hub_fee_ppm = "1000"; flat_fee = "2"; est_network_fee = "1" };
  issued_at = 7;
  expires_at = 30_007;
  max_incoming_hold_ms = 1_000;
  min_safety_delta_ms = 10;
  hub_pubkey = "hub";
  signature = "signature";
}
