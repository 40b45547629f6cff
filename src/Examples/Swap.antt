-- ===== src/Examples/Swap.antt =====
-- One swap from Fiber to Lightning, on a host whose nodes accept every call: an example of the order
-- engine (bifrostd/src/orders/engine.ts).
use bitfrost.Base.{true, false, Option, none, some, List, [], ◌∷◌}
use bitfrost.Base.Int.{pos}
use bitfrost.Sdk.Types.{Network, fiber, lightning, Hash256, Order, OrderState, fiber_to_ln}
use bitfrost.Orders.Store
use bitfrost.Orders.Store.{open_store}
use bitfrost.Orders.Ports.{
  ok, HoldInvoiceState, PaymentStatus, NetworkPorts, EventKind, SwapLegEvent,
}
use bitfrost.Orders.World.{Host, World}
use bitfrost.Orders.Lifecycle.{CreateOrderParams, new_order}
use bitfrost.Orders.History.Jobs.{Job, create_job, invoice_job, leg_event, recover, run_jobs}

abbrev pub zero_hash : Hash256
zero_hash = "0x0000000000000000000000000000000000000000000000000000000000000000"

abbrev pub willing : NetworkPorts
willing = record {
  hold = record {
    create_hold_invoice = λ n r. ok "fibt1";
    settle = λ n hash preimage. ok tt;
    cancel = λ n hash. ok tt;
    invoice_state = λ n hash. ok HoldInvoiceState.open_invoice;
  };
  pay_port = record {
    pay = λ n invoice p. ok tt;
    payment_state = λ n hash.
        ok (record { status = PaymentStatus.no_payment; preimage = none; failure_reason = none });
  };
}

-- The hash function of the example leaves its argument as it is.
abbrev pub demo_host : Host
demo_host = record {
  sha256 = λ bytes. bytes;
  ports = λ net. willing;
  min_safety_delta_ms = 10;
  max_fee_for = λ amount. pos 10;
  clock = λ n. n;
  new_order_id = λ n t. "order-1";
}

abbrev pub demo_params : CreateOrderParams
demo_params = record {
  order_id = none;
  quote_id = "quote-1";
  direction = fiber_to_ln;
  payment_hash = zero_hash;
  incoming = record { network = fiber; amount = pos 101; tlc_expiry_at = 1000 };
  outgoing = record {
    network = lightning;
    invoice = "lnbc1";
    amount = pos 100;
    tlc_expiry_at = 500;
  };
}

abbrev pub event_of : Network → EventKind → Option Hash256 → SwapLegEvent
event_of net kind preimage = record {
  network = net;
  payment_hash = zero_hash;
  kind = kind;
  preimage = preimage;
  failure_reason = none;
  observed_at = 0;
}

abbrev pub held_event : SwapLegEvent
held_event = event_of fiber EventKind.incoming_held none

abbrev pub settled_event : SwapLegEvent
settled_event = event_of lightning EventKind.outgoing_settled (some zero_hash)

abbrev pub demo_jobs : List Job
demo_jobs =
    recover
    ∷ create_job demo_params
    ∷ invoice_job "order-1" "fibt1"
    ∷ leg_event held_event
    ∷ leg_event settled_event
    ∷ []

unfoldable pub empty_world : World
empty_world = record { store = open_store []; ready = false; tick = 0; calls = []; logs = [] }

abbrev state_of : Option Order → Option OrderState
state_of none = none
state_of (some o) = some o.state

unfoldable pub swap_state : Option OrderState
unfolding run_jobs empty_world
swap_state = state_of (Store.find "order-1" (run_jobs demo_host demo_jobs empty_world).store)

-- The order that the example creates, and a world that records it.
unfoldable pub demo_order : Order
unfolding new_order
demo_order = new_order demo_params "order-1" 3

unfoldable pub demo_store : Store.Store
unfolding demo_order Store.created open_store
demo_store = Store.created demo_order (open_store [])

unfoldable pub demo_world : World
unfolding demo_store
demo_world = record { store = demo_store; ready = true; tick = 4; calls = []; logs = [] }
