-- ===== src/Orders/Lifecycle.antt =====
-- bifrostd/src/orders/engine.ts: creation, cancellation, events, the expiry sweep and recovery.
-- `enqueue` runs the jobs of one order one after the other, and a job of one order reads and writes
-- no other order; so a job is an action that runs to its end. The check of `cancelOrder` is made
-- outside the queue, and is a step of its own.
pub mod Refines
pub mod Creates
use Prim.Native.String.{◌++◌ as append}
use bitfrost.Base.{
  ℕ, ◌+◌, String, Bool, true, false, not, ◌&&◌, ◌||◌, Option, none, some, List, [], ◌∷◌, leb, ltb,
  str_eq, if◌then◌else◌,
}
use bitfrost.Base.Int.{ℤ, sub_ℕ}
use bitfrost.Base.Decimal.{int_to_string}
use bitfrost.Sdk.Types.{
  Network, Hash256, Order, OrderState, pending, Leg, waiting, Direction, internal,
  expiry_invariant_violation, quote_expired, outgoing_failed, ProtocolError, Thrown, bifrost,
  type_error, plain_error, is_terminal, state_text, protocol_version,
}
use bitfrost.Sdk.Expiry.{expiry_invariant_holds, at_ms}
use bitfrost.Orders.Store
use bitfrost.Orders.Preimage.{is_hash256}
use bitfrost.Orders.Ports.{HoldInvoiceState, HoldRequest, EventKind, SwapLegEvent}
use bitfrost.Orders.Marks.{
  is_pending, is_incoming_held, is_outgoing_in_flight, is_outgoing_settled, is_refunding,
  mark_invoice, first_failure,
}
use bitfrost.Orders.Reasons.{failure}
use bitfrost.Orders.World.{
  Host, World, Action, create_hold, info, warn, pure, throw, lift, try_catch, done, ◌>>=◌, ◌>>◌,
  now, log, ask, get_order, find_order, find_by_hash, open_orders, set_ready, transition, create,
}
use bitfrost.Orders.Engine.{
  ask_cancel, ask_invoice_state, fail, refund, reconcile_outgoing, on_incoming_held,
  on_incoming_cancelled, on_incoming_settled, handle,
}

pub record IncomingPlan : Type 0 where
  pub network : Network
  pub amount : ℤ
  pub tlc_expiry_at : ℕ

pub record OutgoingPlan : Type 0 where
  pub network : Network
  pub invoice : String
  pub amount : ℤ
  pub tlc_expiry_at : ℕ

pub record CreateOrderParams : Type 0 where
  pub order_id : Option String
  pub quote_id : String
  pub direction : Direction
  pub payment_hash : Hash256
  pub incoming : IncomingPlan
  pub outgoing : OutgoingPlan

abbrev pub or_new : Option String → String → String
or_new none fresh = fresh
or_new (some id) fresh = id

-- The order that `createOrder` persists.
unfoldable pub new_order : CreateOrderParams → String → ℕ → Order
new_order p id t = record {
  order_id = id;
  quote_id = p.quote_id;
  direction = p.direction;
  payment_hash = p.payment_hash;
  state = pending;
  incoming = record {
    network = p.incoming.network;
    invoice = "";
    amount = int_to_string p.incoming.amount;
    tlc_expiry_at = p.incoming.tlc_expiry_at;
    status = waiting;
    preimage = none;
  };
  outgoing = record {
    network = p.outgoing.network;
    invoice = p.outgoing.invoice;
    amount = int_to_string p.outgoing.amount;
    tlc_expiry_at = p.outgoing.tlc_expiry_at;
    status = waiting;
    preimage = none;
  };
  failure = none;
  created_at = t;
  updated_at = t;
}

-- The messages of `cancelOrder`.
abbrev pub unknown_order : String → String
unknown_order id = append "unknown order " id

abbrev pub cannot_cancel : OrderState → String
cannot_cancel state = append "cannot cancel order in state " (state_text state)

-- CANCELLED or UNKNOWN.
abbrev pub is_gone : HoldInvoiceState → Bool
is_gone HoldInvoiceState.cancelled = true
is_gone HoldInvoiceState.unknown = true
is_gone _ = false

module _ (host : Host) where
  unfoldable pub open_hold : CreateOrderParams → String → ℕ → Action String
  open_hold p id t =
      let r : HoldRequest = record {
        payment_hash = p.payment_hash;
        amount = p.incoming.amount;
        tlc_expiry_delta_ms = sub_ℕ p.incoming.tlc_expiry_at t;
        description = append "bifrost order " id;
      } in
      ask (create_hold p.incoming.network r)
        (λ n. (host.ports p.incoming.network).hold.create_hold_invoice n r)

  -- `createOrder` from its checks to the answer of the node: the id and the invoice.
  unfoldable pub admit_order : CreateOrderParams → String → ℕ → Action (String × String)
  unfolding open_hold new_order
  admit_order p id t = do create (new_order p id t); invoice ← open_hold p id t; pure (id, invoice)

  -- And after it. `createOrder` is not queued, so that jobs of the order can come in between.
  unfoldable pub issue_invoice : String → String → Action Order
  issue_invoice id invoice = do
    u ← now host
    transition id (mark_invoice invoice u) "incoming hold invoice issued"

  unfoldable pub request_order : CreateOrderParams → Action (String × String)
  unfolding admit_order
  request_order p w =
      (if not w.ready
          then throw (
              bifrost
                (failure internal "engine not started: crash recovery has not run (I4)" true none))
          else if not (is_hash256 p.payment_hash)
          then throw type_error
          else do
            t ← now host
            wide ←
                lift
                  (expiry_invariant_holds (at_ms p.incoming.tlc_expiry_at)
                    (at_ms p.outgoing.tlc_expiry_at) host.min_safety_delta_ms t)
                  plain_error
            if not wide
                then throw (
                    bifrost (
                      failure expiry_invariant_violation "incoming expiry < outgoing + safety delta"
                        false
                        (some
                          "the incoming hold must outlive the outgoing HTLC by the safety delta")))
                else admit_order p (or_new p.order_id (host.new_order_id w.tick t)) t)
        w

  -- `createOrder`, with what happens to the world while it waits for the node.
  unfoldable pub create_order : (World → World) → CreateOrderParams → Action Order
  unfolding request_order issue_invoice
  create_order meanwhile p =
      request_order p >>= λ asked. λ w. issue_invoice (asked.0) (asked.1) (meanwhile w)

  -- The part of `cancelOrder` that runs before the job is queued.
  unfoldable pub cancel_check : String → Action (Unit {0})
  cancel_check id = do
    order ← find_order id (bifrost (failure internal (unknown_order id) false none))
    if not (is_pending order.state) && not (is_incoming_held order.state)
        then throw (bifrost (failure internal (cannot_cancel order.state) false none))
        else done

  -- The queued part of `cancelOrder`.
  unfoldable pub cancel_job : String → Action (Unit {0})
  cancel_job id =
      fail host id
        (failure internal "cancelled by operator/client request" false
          (some "not a hub error — the client or operator requested cancellation"))
        true

  unfoldable pub cancel_order : String → Action Order
  unfolding cancel_check cancel_job
  cancel_order id = do cancel_check id; cancel_job id; get_order id

  unfoldable pub handle_found : Option Order → SwapLegEvent → Action (Unit {0})
  handle_found none event = done
  handle_found (some order) event = handle host order.order_id event

  unfoldable pub on_leg_event : SwapLegEvent → Action (Unit {0})
  unfolding handle_found
  on_leg_event event = do found ← find_by_hash event.payment_hash; handle_found found event

  unfoldable pub sweep_job : String → Action (Unit {0})
  sweep_job id = do
    o ← get_order id
    if is_pending o.state
        then fail host o.order_id
            (failure quote_expired "incoming leg never arrived before expiry" false none) true
        else (if is_incoming_held o.state || is_outgoing_in_flight o.state
            then refund host o.order_id (
                failure expiry_invariant_violation "incoming expiry entered the safety window (R3)"
                  false (some "ask the payer to retry with a longer-lived invoice"))
            else done)

  unfoldable pub sweep_each : ℕ → List Order → Action (Unit {0})
  unfolding sweep_job
  sweep_each t [] = done
  sweep_each t (order ∷ rest) = do
    if ltb (t + host.min_safety_delta_ms) order.incoming.tlc_expiry_at
        then done
        else sweep_job order.order_id
    sweep_each t rest

  unfoldable pub sweep_expiries : Action (Unit {0})
  unfolding sweep_each
  sweep_expiries = do t ← now host; orders ← open_orders; sweep_each t orders

  complete_refund : String → Order → Action (Unit {0})
  complete_refund id order =
      fail host id
        (first_failure order.failure
          (failure outgoing_failed "refund completed on recovery" false none))
        false

  unfoldable pub refund_retry : String → Action (Unit {0})
  unfolding complete_refund
  refund_retry id = do
    order ← get_order id
    incoming ← ask_invoice_state host order.incoming.network order.payment_hash
    if is_gone incoming
        then complete_refund id order
        else try_catch
            (do ask_cancel host order.incoming.network order.payment_hash; complete_refund id order)
            (λ e. log warn id)

  -- `reconcile` after the incoming leg has been looked at.
  reconcile_rest : String → Action (Unit {0})
  unfolding refund_retry
  reconcile_rest id = do
    fresh ← get_order id
    if is_outgoing_in_flight fresh.state || is_outgoing_settled fresh.state
        then reconcile_outgoing host id
        else (if is_refunding fresh.state then refund_retry id else done)

  reconcile_incoming : String → Order → HoldInvoiceState → Action (Unit {0})
  unfolding reconcile_rest
  reconcile_incoming id order HoldInvoiceState.held =
      (if is_pending order.state then on_incoming_held host id else done) >> reconcile_rest id
  reconcile_incoming id order HoldInvoiceState.cancelled = on_incoming_cancelled host id
  reconcile_incoming id order HoldInvoiceState.settled =
      if is_outgoing_settled order.state then on_incoming_settled host id else reconcile_rest id
  reconcile_incoming id order _ = reconcile_rest id

  unfoldable pub reconcile : String → Action (Unit {0})
  unfolding reconcile_incoming
  reconcile id = do
    order ← get_order id
    log info id
    if is_pending order.state && str_eq order.incoming.invoice ""
        then fail host id (failure internal "crashed before incoming invoice was issued" true none)
            true
        else (do
          incoming ← ask_invoice_state host order.incoming.network order.payment_hash
          reconcile_incoming id order incoming)

  unfoldable pub reconcile_each : List Order → Action (Unit {0})
  unfolding reconcile
  reconcile_each [] = done
  reconcile_each (order ∷ rest) = do reconcile order.order_id; reconcile_each rest

  unfoldable pub start : Action (Unit {0})
  unfolding reconcile_each
  start = do orders ← open_orders; reconcile_each orders; set_ready
