-- ===== src/Orders/Engine.antt =====
-- bifrostd/src/orders/engine.ts, method by method. The `mutate` arguments are in `Marks`.
-- `reconcileOutgoing` calls `handle` only with OUTGOING_SETTLED and OUTGOING_FAILED, and those two
-- cases dispatch nothing; so the cases of `handle` are functions of their own, each above its
-- callers.
pub mod Advances
pub mod Refines
pub mod Unwinds
use Prim.Native.String.{◌++◌ as append}
use bitfrost.Base.{
  ℕ, ◌+◌, ◌==◌, String, Bool, true, false, not, ◌&&◌, ◌||◌, Option, none, some, List, [], ◌∷◌, map,
  leb, truthy, if◌then◌else◌,
}
use bitfrost.Base.Codes.{codes, lower}
use bitfrost.Base.Int.{ℤ, sub_ℕ}
use bitfrost.Base.Decimal.{big_int, int_to_string}
use bitfrost.Sdk.Types.{
  Network, fiber, lightning, Hash256, Order, OrderState, pending, Leg, waiting, Direction,
  ErrorCode, internal, expiry_invariant_violation, quote_expired, no_route, outgoing_failed,
  ProtocolError, Thrown, bifrost, type_error, syntax_error, is_terminal, code_text,
}
use bitfrost.Sdk.Expiry.{expiry_invariant_holds, at_ms}
use bitfrost.Orders.Store
use bitfrost.Orders.Preimage.{hex_preimage_matches, is_hash256}
use bitfrost.Orders.Ports.{
  HoldInvoiceState, PaymentStateResult, PaymentStatus, HoldRequest, PayRequest, EventKind,
  SwapLegEvent,
}
use bitfrost.Orders.Marks.{
  is_pending, is_incoming_held, is_outgoing_in_flight, is_outgoing_settled, is_refunding,
  is_succeeded, is_failed, is_waiting, mark_invoice, mark_held, mark_dispatched,
  mark_outgoing_settled, mark_succeeded, mark_settled_by_node, mark_refunding, mark_failed,
  first_failure,
}
use bitfrost.Orders.Reasons.{failure, outgoing_failure}
use bitfrost.Orders.World.{
  Host, World, Action, Request, create_hold, settle, cancel, invoice_state, pay, payment_state,
  info, warn, critical, pure, throw, lift, try_catch, done, ◌>>=◌, ◌>>◌, now, log, ask, get_order,
  transition, save, create,
}

module _ (host : Host) where
  -- The calls of the two nodes, by the leg's network.
  unfoldable pub ask_settle : Network → Hash256 → Hash256 → Action (Unit {0})
  ask_settle net hash preimage =
      ask (settle net hash preimage) (λ n. (host.ports net).hold.settle n hash preimage)

  unfoldable pub ask_cancel : Network → Hash256 → Action (Unit {0})
  ask_cancel net hash = ask (cancel net hash) (λ n. (host.ports net).hold.cancel n hash)

  unfoldable pub ask_invoice_state : Network → Hash256 → Action HoldInvoiceState
  ask_invoice_state net hash =
      ask (invoice_state net hash) (λ n. (host.ports net).hold.invoice_state n hash)

  unfoldable pub ask_payment_state : Network → Hash256 → Action PaymentStateResult
  ask_payment_state net hash =
      ask (payment_state net hash) (λ n. (host.ports net).pay_port.payment_state n hash)

  -- `pay.pay(invoice, { maxFee, tlcExpiryLimitMs })`, its arguments computed first.
  unfoldable pub ask_pay : Order → ℤ → Action (Unit {0})
  ask_pay o limit = do
    amount ← lift (big_int o.outgoing.amount) syntax_error
    let p : PayRequest = record { max_fee = host.max_fee_for amount; tlc_expiry_limit_ms = limit }
    ask (pay o.outgoing.network o.outgoing.invoice p)
        (λ n. (host.ports o.outgoing.network).pay_port.pay n o.outgoing.invoice p)

  unfoldable pub matches : Hash256 → Hash256 → Bool
  matches = hex_preimage_matches host.sha256

  unfoldable pub fail_cancel : Bool → String → Order → Action (Unit {0})
  unfolding ask_cancel
  fail_cancel false id order = done
  fail_cancel true id order =
      try_catch (ask_cancel order.incoming.network order.payment_hash) (λ e. log warn id)

  -- The engine's `fail`.
  unfoldable pub fail : String → ProtocolError → Bool → Action (Unit {0})
  unfolding fail_cancel
  fail id why cancel_incoming = do
    order ← get_order id
    if is_failed order.state || is_succeeded order.state then done else do
      t ← now host
      save id (mark_failed why t) (append "failed: " (code_text why.code))
      fail_cancel cancel_incoming id order

  -- `true` where the cancel went through, `false` where it threw.
  unfoldable pub try_cancel : String → Order → Action Bool
  unfolding ask_cancel
  try_cancel id order =
      try_catch (do ask_cancel order.incoming.network order.payment_hash; pure true)
        (λ e. do log warn id; pure false)

  unfoldable pub refund : String → ProtocolError → Action (Unit {0})
  unfolding try_cancel fail
  refund id why = do
    order ← get_order id
    if is_refunding order.state || is_failed order.state || is_succeeded order.state
        then done
        else do
          t ← now host
          save id (mark_refunding why t) (append "refunding: " (code_text why.code))
          cancelled ← try_cancel id order
          if cancelled then fail id why false else done

  unfoldable pub settle_verified : String → Order → Option Hash256 → Action (Unit {0})
  unfolding ask_settle matches
  settle_verified id order none = log critical id
  settle_verified id order (some preimage) =
      if not (matches preimage order.payment_hash) then log critical id else do
        ask_settle order.incoming.network order.payment_hash preimage
        t ← now host
        save id (mark_succeeded preimage t) "incoming settled — swap complete"
        log info id

  unfoldable pub settle_incoming : String → Action (Unit {0})
  unfolding settle_verified
  settle_incoming id = do
    order ← get_order id
    if not (is_outgoing_settled order.state)
        then log critical id
        else settle_verified id order (truthy order.outgoing.preimage)

  unfoldable pub accept_preimage : String → Order → Option Hash256 → Action (Unit {0})
  unfolding settle_incoming matches
  accept_preimage id order none = log info id
  accept_preimage id order (some preimage) =
      if not (matches preimage order.payment_hash) then log critical id else do
        t ← now host
        save id (mark_outgoing_settled preimage t) "outgoing settled, preimage verified"
        settle_incoming id

  -- `handle` at OUTGOING_SETTLED, with the event's preimage.
  unfoldable pub on_outgoing_settled : String → Option Hash256 → Action (Unit {0})
  unfolding accept_preimage settle_incoming
  on_outgoing_settled id preimage = do
    order ← get_order id
    if is_succeeded order.state
        then done
        else if is_outgoing_settled order.state
        then settle_incoming id
        else if not (is_outgoing_in_flight order.state)
        then log warn id
        else accept_preimage id order (truthy preimage)

  -- `handle` at OUTGOING_FAILED, with the event's reason.
  unfoldable pub on_outgoing_failed : String → Option String → Action (Unit {0})
  unfolding refund outgoing_failure
  on_outgoing_failed id reported = do
    order ← get_order id
    if not (is_outgoing_in_flight order.state) && not (is_incoming_held order.state)
        then done
        else refund id (outgoing_failure reported)

  -- `handle` at INCOMING_CANCELLED.
  unfoldable pub on_incoming_cancelled : String → Action (Unit {0})
  unfolding fail
  on_incoming_cancelled id = do
    order ← get_order id
    if is_succeeded order.state || is_failed order.state then done else do
      if is_outgoing_settled order.state then log critical id else done
      fail id
          (first_failure order.failure
            (failure outgoing_failed "incoming hold cancelled/expired" false none))
          false

  -- `handle` at INCOMING_SETTLED.
  unfoldable pub on_incoming_settled : String → Action (Unit {0})
  on_incoming_settled id = do
    order ← get_order id
    if is_outgoing_settled order.state
        then (do t ← now host; save id (mark_settled_by_node t) "incoming settled (node event)")
        else (if not (is_succeeded order.state) then log critical id else done)

  redispatch : String → Order → Action (Unit {0})
  unfolding ask_pay
  redispatch id o = if not (is_outgoing_in_flight o.state) then done else do
    log info id
    try_catch (do t ← now host; ask_pay o (sub_ℕ o.outgoing.tlc_expiry_at t)) (λ e. log warn id)

  unfoldable pub reconcile_outgoing : String → Action (Unit {0})
  unfolding ask_payment_state on_outgoing_settled on_outgoing_failed redispatch
  reconcile_outgoing id = do
    order ← get_order id
    state ← ask_payment_state order.outgoing.network order.payment_hash
    elim state.status [
      | PaymentStatus.succeeded ↦ on_outgoing_settled id (truthy state.preimage)
      | PaymentStatus.failed ↦ on_outgoing_failed id (truthy state.failure_reason)
      | PaymentStatus.no_payment ↦ get_order id >>= redispatch id
      | PaymentStatus.in_flight ↦ done
    ]

  -- The `try` of `dispatchOutgoing`.
  unfoldable pub send_outgoing : String → Order → ℕ → Action (Unit {0})
  unfolding ask_pay reconcile_outgoing
  send_outgoing id order t =
      try_catch (ask_pay order (sub_ℕ order.outgoing.tlc_expiry_at t))
        (λ e. do log warn id; reconcile_outgoing id)

  unfoldable pub dispatch_outgoing : String → Action (Unit {0})
  unfolding refund send_outgoing
  dispatch_outgoing id = do
    order ← get_order id
    if not (is_incoming_held order.state) || not (is_waiting order.outgoing.status)
        then done
        else do
          t ← now host
          if leb order.incoming.tlc_expiry_at (t + host.min_safety_delta_ms)
              then refund id (
                  failure expiry_invariant_violation
                    "incoming expiry too close at dispatch time (R3)" false none)
              else (do
                u ← now host
                save id (mark_dispatched u) "dispatching outgoing"
                send_outgoing id order t)

  -- `handle` at INCOMING_HELD.
  unfoldable pub on_incoming_held : String → Action (Unit {0})
  unfolding dispatch_outgoing
  on_incoming_held id = do
    order ← get_order id
    if not (is_pending order.state)
        then done
        else do t ← now host; save id (mark_held t) "incoming HTLC held"; dispatch_outgoing id

  unfoldable pub handle : String → SwapLegEvent → Action (Unit {0})
  unfolding on_incoming_held on_outgoing_settled on_outgoing_failed on_incoming_cancelled
      on_incoming_settled
  handle id event = elim event.kind [
    | EventKind.incoming_held ↦ on_incoming_held id
    | EventKind.outgoing_settled ↦ on_outgoing_settled id event.preimage
    | EventKind.outgoing_failed ↦ on_outgoing_failed id event.failure_reason
    | EventKind.incoming_cancelled ↦ on_incoming_cancelled id
    | EventKind.incoming_settled ↦ on_incoming_settled id
    | EventKind.outgoing_in_flight ↦ done
  ]
