-- ===== src/Api/Server.antt =====
-- bifrostd/src/api/server.ts: what the handlers answer. A request's body that is not JSON is `none`;
-- one that is has the shape that the code takes it to have. Of a message that is put together for
-- the reader, the fixed part is kept. The sockets, the headers and the timers are I/O.
pub mod Quoting
pub mod Ordering
pub mod Cancelling
pub mod Paging
pub mod Routes
use bitfrost.Base.{ℕ, String, Bool, true, false, Option, none, some, List}
use bitfrost.Sdk.Types.{
  Order, Quote, ErrorCode, ProtocolError, Thrown, bifrost, pair_unsupported, amount_out_of_bounds,
  inventory_insufficient, pricing_unavailable, invoice_invalid, invoice_mismatch,
  hash_algo_unsupported, quote_expired, quote_unknown, expiry_invariant_violation, hub_overexposed,
  rate_limited, unauthorized, internal,
}
use bitfrost.Orders.World.{World}
use bitfrost.Api.Quotes.{QuoteCache, QuoteStats}
use bitfrost.Api.Coordinator.{Coordinator}
use bitfrost.Api.Stream.{Rejection}
use bitfrost.Api.Inventory.{NetworkLiquidity}

-- What a handler reads and writes.
pub record Hub : Type 0 where
  pub world : World
  pub cache : QuoteCache
  pub coordinator : Coordinator
  pub rejections : List Rejection

-- `OrdersPage` (bifrostd/src/api/contract.ts).
pub record OrdersPage : Type 0 where
  pub orders : List Order
  pub cursor : Option String

-- `InventorySnapshot`, its two assets in their order.
pub record Balances : Type 0 where
  pub fiber : NetworkLiquidity
  pub lightning : NetworkLiquidity
  pub updated_at : ℕ

pub record NodeInfo : Type 0 where
  pub node_id : String
  pub version : String

pub record NodeHealth : Type 0 where
  pub connected : Bool
  pub info : NodeInfo

-- `HealthReport`; `feed` is fixed.
pub record HealthReport : Type 0 where
  pub fnn : NodeHealth
  pub lnd : NodeHealth
  pub min_safety_delta_ms : ℕ
  pub max_incoming_hold_ms : ℕ
  pub rejections : List Rejection

pub data Body : Type 0 where
  error_body : ProtocolError → Body
  quote_body : Quote → Body
  order_body : Order → Body
  page_body : OrdersPage → Body
  balances_body : Balances → Body
  health_body : HealthReport → Body
  stats_body : QuoteStats → Body
  invoice_body : String → ℕ → Body
  paid_body empty_body : Body

pub record Response : Type 0 where
  pub status : ℕ
  pub body : Body

unfoldable pub http_code_for : ErrorCode → ℕ
http_code_for quote_unknown = 404
http_code_for internal = 404
http_code_for quote_expired = 410
http_code_for pair_unsupported = 400
http_code_for amount_out_of_bounds = 400
http_code_for invoice_invalid = 400
http_code_for invoice_mismatch = 400
http_code_for hash_algo_unsupported = 400
http_code_for expiry_invariant_violation = 400
http_code_for inventory_insufficient = 409
http_code_for pricing_unavailable = 409
http_code_for hub_overexposed = 409
http_code_for rate_limited = 429
http_code_for unauthorized = 401
http_code_for _ = 500

abbrev pub answer : Body → Response
answer b = record { status = 200; body = b }

-- `errorEnvelope` with an error written out.
abbrev pub envelope : ℕ → ErrorCode → String → Response
envelope status code message = record {
  status = status;
  body = error_body (record { code = code; message = message; hint = none; retryable = false });
}

-- `e instanceof BifrostError ? e : new BifrostError("INTERNAL", String(e), false)`.
unfoldable pub as_bifrost : Thrown → ProtocolError
as_bifrost (bifrost e) = e
as_bifrost _ = record {
  code = internal;
  message = "internal error";
  hint = none;
  retryable = false;
}

-- The `catch` of the two POST handlers.
unfoldable pub caught : Thrown → Response
unfolding as_bifrost http_code_for
caught e = record { status = http_code_for (as_bifrost e).code; body = error_body (as_bifrost e) }
