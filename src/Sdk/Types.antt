-- ===== src/Sdk/Types.antt =====
-- sdk/src/types.ts and sdk/src/errors.ts. A wire amount is a text: `to_string` writes it and
-- `big_int` reads it. Timestamps and durations are safe integers that are not negative.
use bitfrost.Base.{ℕ, String, Option, Bool, true, false}

pub data Network : Type 0 where
  fiber lightning : Network

pub record CkbScript : Type 0 where
  pub code_hash : String
  pub hash_type : String
  pub args : String

pub data AssetRef : Type 0 where
  lightning_sat : AssetRef
  fiber_shannon : AssetRef
  fiber_udt : CkbScript → AssetRef

unfoldable pub network_of : AssetRef → Network
network_of lightning_sat = lightning
network_of fiber_shannon = fiber
network_of (fiber_udt s) = fiber

pub record Pair : Type 0 where
  pub give : AssetRef
  pub gets : AssetRef

abbrev pub Amount : Type 0
Amount = String

-- `0x` and 64 lowercase hex digits (bifrostd/src/adapters/types.ts).
abbrev pub Hash256 : Type 0
Hash256 = String

pub data Side : Type 0 where
  give_side get_side : Side

pub data QuoteMode : Type 0 where
  pay_invoice receive : QuoteMode

-- `protocol` is compared with "bifrost/0.1", so it is kept as the text it is.
pub record QuoteRequest : Type 0 where
  pub protocol : String
  pub pair : Pair
  pub side : Side
  pub value : Amount
  pub mode : QuoteMode
  pub target_invoice : Option String

pub record Rate : Type 0 where
  pub num : Amount
  pub den : Amount

pub record FeeBreakdown : Type 0 where
  pub hub_fee_ppm : Amount
  pub flat_fee : Amount
  pub est_network_fee : Amount

pub record Quote : Type 0 where
  pub protocol : String
  pub quote_id : String
  pub pair : Pair
  pub rate : Rate
  pub give_amount : Amount
  pub get_amount : Amount
  pub fee_breakdown : FeeBreakdown
  pub issued_at : ℕ
  pub expires_at : ℕ
  pub max_incoming_hold_ms : ℕ
  pub min_safety_delta_ms : ℕ
  pub hub_pubkey : String
  pub signature : String

abbrev pub protocol_version : String
protocol_version = "bifrost/0.1"

pub data OrderState : Type 0 where
  pending incoming_held outgoing_in_flight outgoing_settled : OrderState
  succeeded refunding failed : OrderState

-- As they are written.
unfoldable pub state_text : OrderState → String
state_text pending = "PENDING"
state_text incoming_held = "INCOMING_HELD"
state_text outgoing_in_flight = "OUTGOING_IN_FLIGHT"
state_text outgoing_settled = "OUTGOING_SETTLED"
state_text succeeded = "SUCCEEDED"
state_text refunding = "REFUNDING"
state_text failed = "FAILED"

pub data LegStatus : Type 0 where
  waiting held in_flight settled cancelled failed : LegStatus

pub data Direction : Type 0 where
  fiber_to_ln ln_to_fiber : Direction

pub data ErrorCode : Type 0 where
  pair_unsupported amount_out_of_bounds inventory_insufficient : ErrorCode
  pricing_unavailable invoice_invalid invoice_mismatch : ErrorCode
  hash_algo_unsupported quote_expired quote_unknown : ErrorCode
  expiry_invariant_violation no_route outgoing_timeout : ErrorCode
  outgoing_failed hub_overexposed rate_limited unauthorized internal : ErrorCode

pub record ProtocolError : Type 0 where
  pub code : ErrorCode
  pub message : String
  pub hint : Option String
  pub retryable : Bool

pub record Leg : Type 0 where
  pub network : Network
  pub invoice : String
  pub amount : Amount
  pub tlc_expiry_at : ℕ
  pub status : LegStatus
  pub preimage : Option Hash256

pub record Order : Type 0 where
  pub order_id : String
  pub quote_id : String
  pub direction : Direction
  pub payment_hash : Hash256
  pub state : OrderState
  pub incoming : Leg
  pub outgoing : Leg
  pub failure : Option ProtocolError
  pub created_at : ℕ
  pub updated_at : ℕ

-- `new Set(["SUCCEEDED", "FAILED"])` (bifrostd/src/orders/store.ts, api/coordinator.ts).
abbrev pub is_terminal : OrderState → Bool
is_terminal succeeded = true
is_terminal OrderState.failed = true
is_terminal _ = false

-- What a JavaScript function throws: a `BifrostError`, or any other error.
pub data Thrown : Type 0 where
  bifrost : ProtocolError → Thrown
  type_error range_error syntax_error plain_error adapter_error : Thrown

-- The codes as `ERROR_CODES` spells them.
unfoldable pub code_text : ErrorCode → String
code_text pair_unsupported = "PAIR_UNSUPPORTED"
code_text amount_out_of_bounds = "AMOUNT_OUT_OF_BOUNDS"
code_text inventory_insufficient = "INVENTORY_INSUFFICIENT"
code_text pricing_unavailable = "PRICING_UNAVAILABLE"
code_text invoice_invalid = "INVOICE_INVALID"
code_text invoice_mismatch = "INVOICE_MISMATCH"
code_text hash_algo_unsupported = "HASH_ALGO_UNSUPPORTED"
code_text quote_expired = "QUOTE_EXPIRED"
code_text quote_unknown = "QUOTE_UNKNOWN"
code_text expiry_invariant_violation = "EXPIRY_INVARIANT_VIOLATION"
code_text no_route = "NO_ROUTE"
code_text outgoing_timeout = "OUTGOING_TIMEOUT"
code_text outgoing_failed = "OUTGOING_FAILED"
code_text hub_overexposed = "HUB_OVEREXPOSED"
code_text rate_limited = "RATE_LIMITED"
code_text unauthorized = "UNAUTHORIZED"
code_text internal = "INTERNAL"

-- `isRetryable`.
unfoldable pub is_retryable : Thrown → Bool
is_retryable (bifrost e) = e.retryable
is_retryable _ = false
