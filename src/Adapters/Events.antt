-- ===== src/Adapters/Events.antt =====
-- What an async generator of the adapters (bifrostd/src/adapters) does: it yields, and then it
-- returns, throws, or is left by its consumer or by the end of its input.
use bitfrost.Base.{ℕ, none, Bool, true, false, if◌then◌else◌}
use bitfrost.Sdk.Types.{Network, Hash256, Thrown, type_error}
use bitfrost.Orders.Ports.{
  Result, ok, err, SwapLegEvent, EventKind, incoming_held, incoming_settled, incoming_cancelled,
  outgoing_in_flight, outgoing_settled, outgoing_failed,
}
use bitfrost.Orders.Preimage.{is_hash256}

pub data Yields (A : Type 0) : Type 0 where
  returned stopped : Yields A
  thrown : Thrown → Yields A
  yields : A → Yields A → Yields A

pub data Role : Type 0 where
  incoming outgoing : Role

-- `assertHash256`.
unfoldable pub assert_hash256 : Hash256 → Result (Unit {0})
unfolding is_hash256
assert_hash256 h = if is_hash256 h then ok tt else err type_error

-- An event without a preimage or a reason.
abbrev pub plain_event : Network → Hash256 → ℕ → EventKind → SwapLegEvent
plain_event network hash now kind = record {
  network = network;
  payment_hash = hash;
  kind = kind;
  preimage = none;
  failure_reason = none;
  observed_at = now;
}

-- After these the stream of its leg goes on.
abbrev pub goes_on : EventKind → Bool
goes_on incoming_held = true
goes_on incoming_settled = false
goes_on incoming_cancelled = false
goes_on outgoing_in_flight = true
goes_on outgoing_settled = false
goes_on outgoing_failed = false
