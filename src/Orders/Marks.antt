-- ===== src/Orders/Marks.antt =====
-- What the transitions of bifrostd/src/orders/engine.ts write into an order: the `mutate` arguments
-- of `store.transition`, and the tests on states that guard them.
use bitfrost.Base.{ℕ, String, Bool, true, false, Option, none, some, truthy}
use bitfrost.Sdk.Types.{
  Order, OrderState, pending, incoming_held, outgoing_in_flight, outgoing_settled, succeeded,
  refunding, LegStatus, waiting, held, in_flight, settled, cancelled, ProtocolError, Hash256,
}

abbrev pub is_pending : OrderState → Bool
is_pending pending = true
is_pending _ = false

abbrev pub is_incoming_held : OrderState → Bool
is_incoming_held incoming_held = true
is_incoming_held _ = false

abbrev pub is_outgoing_in_flight : OrderState → Bool
is_outgoing_in_flight outgoing_in_flight = true
is_outgoing_in_flight _ = false

abbrev pub is_outgoing_settled : OrderState → Bool
is_outgoing_settled outgoing_settled = true
is_outgoing_settled _ = false

abbrev pub is_refunding : OrderState → Bool
is_refunding refunding = true
is_refunding _ = false

abbrev pub is_succeeded : OrderState → Bool
is_succeeded succeeded = true
is_succeeded _ = false

abbrev pub is_failed : OrderState → Bool
is_failed OrderState.failed = true
is_failed _ = false

abbrev pub is_waiting : LegStatus → Bool
is_waiting waiting = true
is_waiting _ = false

unfoldable pub mark_invoice : String → ℕ → Order → Order
mark_invoice invoice t o = record o {
  incoming = record o.incoming { invoice = invoice };
  updated_at = t;
}

unfoldable pub mark_held : ℕ → Order → Order
mark_held t o = record o {
  state = incoming_held;
  incoming = record o.incoming { status = held };
  updated_at = t;
}

unfoldable pub mark_dispatched : ℕ → Order → Order
mark_dispatched t o = record o {
  state = outgoing_in_flight;
  outgoing = record o.outgoing { status = in_flight };
  updated_at = t;
}

unfoldable pub mark_outgoing_settled : Hash256 → ℕ → Order → Order
mark_outgoing_settled preimage t o = record o {
  state = outgoing_settled;
  outgoing = record o.outgoing { status = settled; preimage = some preimage };
  updated_at = t;
}

-- `settleIncoming`: the hub settled the incoming leg itself.
unfoldable pub mark_succeeded : Hash256 → ℕ → Order → Order
mark_succeeded preimage t o = record o {
  state = succeeded;
  incoming = record o.incoming { status = settled; preimage = some preimage };
  updated_at = t;
}

abbrev or_else : Option Hash256 → Option Hash256 → Option Hash256
or_else (some p) other = some p
or_else none other = other

-- The node reported the incoming leg settled.
unfoldable pub mark_settled_by_node : ℕ → Order → Order
mark_settled_by_node t o = record o {
  state = succeeded;
  incoming = record o.incoming {
    status = settled;
    preimage = or_else (truthy o.outgoing.preimage) o.incoming.preimage;
  };
  updated_at = t;
}

abbrev pub failed_if_in_flight : LegStatus → LegStatus
failed_if_in_flight in_flight = LegStatus.failed
failed_if_in_flight s = s

unfoldable pub mark_refunding : ProtocolError → ℕ → Order → Order
mark_refunding why t o = record o {
  state = refunding;
  outgoing = record o.outgoing { status = failed_if_in_flight o.outgoing.status };
  failure = some why;
  updated_at = t;
}

abbrev cancelled_unless_settled : LegStatus → LegStatus
cancelled_unless_settled settled = settled
cancelled_unless_settled _ = cancelled

abbrev pub first_failure : Option ProtocolError → ProtocolError → ProtocolError
first_failure (some f) why = f
first_failure none why = why

unfoldable pub mark_failed : ProtocolError → ℕ → Order → Order
mark_failed why t o = record o {
  state = OrderState.failed;
  incoming = record o.incoming { status = cancelled_unless_settled o.incoming.status };
  failure = some (first_failure o.failure why);
  updated_at = t;
}
