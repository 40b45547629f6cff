-- ===== src/Examples/Nodes.antt =====
-- The theorems on the adapters (bifrostd/src/adapters), applied to concrete inputs.
use bitfrost.Base.{◌≡◌, refl, ℕ, String, true, none, some, List, [], ◌∷◌, str_eq}
use bitfrost.Base.Int.{pos}
use bitfrost.Sdk.Types.{fiber, lightning}
use bitfrost.Orders.Ports.{Result, ok, HoldRequest}
use bitfrost.Orders.Bindings.{FiberPayment, fiber_ports}
use bitfrost.Rfq.Fallible.{◌>>=◌}
use bitfrost.Fnn.{encode_hex}
use bitfrost.Adapters.Events.{incoming, outgoing, assert_hash256}
use bitfrost.Adapters.InOrder.{InOrder}
use bitfrost.Adapters.Fiber.{
  FnnTransport, poll_incoming, poll_outgoing, leg_events, fiber_adapter, new_hold_invoice,
}
use bitfrost.Adapters.Fiber.Streams.{
  polled-InOrder, answered, changes_of, until_final, polled_as_streamed,
}
use bitfrost.Adapters.Fiber.Keyed.{KeyedHold, hold_is_keyed}
use bitfrost.Adapters.Lightning.{Frame, frame_result, RestPayment, incoming_events, outgoing_events}
use bitfrost.Adapters.Lightning.Streams.{streamed-InOrder, RealEvents, streamed-RealEvents}
use bitfrost.Adapters.Lines.{stream_lines, yield_lines}
use bitfrost.Adapters.Lines.Chunks.{fields, joined, pieces_do_not_matter}
use bitfrost.Examples.Swap.{zero_hash}

abbrev statuses : List (ℕ × String)
statuses = (1, "Open") ∷ (2, "Received") ∷ (3, "Received") ∷ (4, "Paid") ∷ (5, "Open") ∷ []

abbrev demo_payments : List (ℕ × Result FiberPayment)
demo_payments =
    (1, ok (record { status = "Inflight"; failed_error = none }))
    ∷ (2, ok (record { status = "Failed"; failed_error = some "no path found" }))
    ∷ []

polled-InOrder_example :
    InOrder fiber "0x00" incoming (poll_incoming "0x00" none (answered statuses))
    × InOrder fiber "0x00" outgoing (poll_outgoing "0x00" none demo_payments)
polled-InOrder_example = polled-InOrder "0x00" none (answered statuses) demo_payments

polled_as_streamed_example :
    poll_incoming "0x00" none (answered statuses)
    ≡ until_final (leg_events (changes_of "0x00" none statuses))
polled_as_streamed_example = polled_as_streamed "0x00" none statuses

abbrev demo_transport : FnnTransport
demo_transport = record {
  currency = "Fibt";
  new_invoice = λ n req. ok (record { invoice_address = "fibt1"; payment_hash = req.payment_hash });
  settle_invoice = λ n hash preimage. ok tt;
  cancel_invoice = λ n hash. ok tt;
  get_invoice = λ n hash. ok "Open";
  send_payment = λ n req. ok tt;
  get_payment = λ n hash. ok (record { status = "Created"; failed_error = none });
}

abbrev demo_hold : HoldRequest
demo_hold = record {
  payment_hash = zero_hash;
  amount = pos 255;
  tlc_expiry_delta_ms = pos 57_600_000;
  description = "swap";
}

hold_made :
    (fiber_ports (λ e. true) (fiber_adapter demo_transport) none).hold.create_hold_invoice 0
      demo_hold
    ≡ ok "fibt1"
unfolding fiber_ports fiber_adapter new_hold_invoice assert_hash256 encode_hex ◌>>=◌ str_eq
hold_made = refl

hold_is_keyed_example : KeyedHold demo_transport none 0 demo_hold "fibt1"
hold_is_keyed_example = hold_is_keyed (λ e. true) demo_transport none 0 demo_hold "fibt1" hold_made

abbrev invoice_frames : List (ℕ × Frame String)
invoice_frames =
    (1, frame_result "OPEN") ∷ (2, frame_result "ACCEPTED") ∷ (3, frame_result "SETTLED") ∷ []

abbrev payment_frames : List (Frame RestPayment)
payment_frames =
    frame_result
      (record { status = "IN_FLIGHT"; payment_preimage = some "0000"; failure_reason = none })
    ∷ frame_result
        (record { status = "SUCCEEDED"; payment_preimage = some "00ff"; failure_reason = none })
    ∷ []

streamed-InOrder_example :
    InOrder lightning zero_hash incoming (incoming_events zero_hash invoice_frames)
    × InOrder lightning zero_hash outgoing (outgoing_events (λ n. n) zero_hash payment_frames)
streamed-InOrder_example = streamed-InOrder (λ n. n) zero_hash invoice_frames payment_frames

streamed-RealEvents_example : RealEvents (outgoing_events (λ n. n) zero_hash payment_frames)
streamed-RealEvents_example = streamed-RealEvents (λ n. n) zero_hash payment_frames

-- A frame, cut in the middle of a line, and one without a newline at its end.
abbrev pieces : List (List ℕ)
pieces = (123 ∷ 125 ∷ []) ∷ (32 ∷ 10 ∷ 10 ∷ 49 ∷ []) ∷ (50 ∷ []) ∷ []

pieces_do_not_matter_example : stream_lines [] pieces ≡ yield_lines (fields (joined pieces)) []
pieces_do_not_matter_example = pieces_do_not_matter pieces
