-- ===== src/Orders/Engine/Refines.antt =====
-- The engine keeps to the protocol: whatever the nodes answer, each handler of
-- bifrostd/src/orders/engine.ts runs through steps of `Protocol` on its order.
use bitfrost.Base.{
  ℕ, ◌≡◌, refl, inl, String, false, not, Option, none, some, arith, str_eq, truthy, ◌||◌, ◌&&◌, ◌+◌,
  leb, sym,
}
use bitfrost.Base.Int.{ℤ}
use bitfrost.Sdk.Types.{Order, outgoing_in_flight, outgoing_settled, Hash256}
use bitfrost.Orders.Ports.{PaymentStatus, SwapLegEvent, EventKind}
use bitfrost.Orders.Marks.{
  is_failed, is_succeeded, is_pending, is_incoming_held, is_waiting, is_outgoing_settled,
  is_outgoing_in_flight, mark_dispatched,
}
use bitfrost.Orders.World.{Host, Level, ◌>>=◌}
use bitfrost.Orders.Engine.{
  ask_pay, ask_payment_state, matches, settle_verified, settle_incoming, accept_preimage,
  on_outgoing_settled, on_outgoing_failed, on_incoming_cancelled, on_incoming_settled, redispatch,
  reconcile_outgoing, send_outgoing, dispatch_outgoing, on_incoming_held, handle,
}
use bitfrost.Orders.Runs.{
  Always, Anything, At, Does, Does-lift, Does-now, Does-log, Does-weaken, Does-forget, Does-if,
  Does-bind, Does-catch, Does-get_order, Does-ask, Does-save, Does-done, Does-report,
}
use bitfrost.Orders.Engine.Advances.{
  mark_held-Advance, mark_dispatched-Advance, mark_outgoing_settled-Advance, mark_succeeded-Advance,
  mark_settled_by_node-Advance,
}
use bitfrost.Orders.World.{get_order, done}
use bitfrost.Orders.Engine.Unwinds.{fail-Does, refund-Does}

module _ (host : Host) (id : String) where
  truthy-some :
      (o : Option String) (p : String) → some p ≡ truthy o → (o ≡ some p) × (str_eq p "" ≡ false)
  truthy-some none p h = absurd (cc h)
  truthy-some (some q) p h = ground (arith, h)

  settle_verified-Does :
      (o : Order) (preimage : Option Hash256)
      → o.state ≡ outgoing_settled
      → preimage ≡ truthy o.outgoing.preimage
      → Does host id (At id o) (settle_verified host id o preimage) Anything
  unfolding settle_verified
  settle_verified-Does o none h e = Does-report host id Level.critical id
  settle_verified-Does o (some p) h e =
      let (recorded, full) = truthy-some o.outgoing.preimage p e in
      Does-if host id (not (matches host p o.payment_hash)) _ _
        (λ bad. Does-report host id Level.critical id)
        (λ good.
          Does-bind host id (Does-ask host id o _ _ (h, refl, refl, recorded, ground (arith, good)))
            λ _. Does-bind host id (Does-now host id) λ t.
              Does-bind host id
                (Does-save host id o _ _ (mark_succeeded-Advance host o t p h recorded))
                λ _. Does-report host id Level.info id)

  pub settle_incoming-Does : Does host id Always (settle_incoming host id) Anything
  unfolding settle_incoming
  settle_incoming-Does = Does-bind host id (Does-get_order host id) λ o.
      Does-if host id (not (is_outgoing_settled o.state)) _ _
        (λ early. Does-report host id Level.critical id)
        (λ go. settle_verified-Does o _ (ground (arith, go)) refl)

  accept_preimage-Does :
      (o : Order) (preimage : Option Hash256)
      → o.state ≡ outgoing_in_flight
      → ((p : Hash256) → preimage ≡ some p → str_eq p "" ≡ false)
      → Does host id (At id o) (accept_preimage host id o preimage) Anything
  unfolding accept_preimage
  accept_preimage-Does o none h full = Does-report host id Level.info id
  accept_preimage-Does o (some p) h full =
      Does-if host id (not (matches host p o.payment_hash)) _ _
        (λ bad. Does-report host id Level.critical id)
        (λ good. Does-bind host id (Does-now host id) λ t.
          Does-bind host id
            (Does-save host id o _ _
              (mark_outgoing_settled-Advance host o t p h (full p refl) (ground (arith, good))))
            λ _. Does-weaken host id settle_incoming-Does)

  pub on_outgoing_settled-Does :
      (preimage : Option Hash256)
      → Does host id Always (on_outgoing_settled host id preimage) Anything
  unfolding on_outgoing_settled
  on_outgoing_settled-Does q = Does-bind host id (Does-get_order host id) λ o.
      Does-if host id (is_succeeded o.state) _ _ (λ stop. Does-done host id)
        (λ _.
          Does-if host id (is_outgoing_settled o.state) _ _
            (λ again. Does-weaken host id settle_incoming-Does)
            (λ _.
              Does-if host id (not (is_outgoing_in_flight o.state)) _ _
                (λ odd. Does-report host id Level.warn id)
                (λ go.
                  accept_preimage-Does o _ (ground (arith, go))
                    (λ p e. (truthy-some q p (sym e)).1))))

  pub on_outgoing_failed-Does :
      (reported : Option String)
      → Does host id Always (on_outgoing_failed host id reported) Anything
  unfolding on_outgoing_failed
  on_outgoing_failed-Does q = Does-bind host id (Does-get_order host id) λ o.
      Does-if host id (not (is_outgoing_in_flight o.state) && not (is_incoming_held o.state)) _ _
        (λ stop. Does-done host id) (λ go. refund-Does host id _ o (ground (arith, go)))

  pub on_incoming_cancelled-Does : Does host id Always (on_incoming_cancelled host id) Anything
  unfolding on_incoming_cancelled
  on_incoming_cancelled-Does = Does-bind host id (Does-get_order host id) λ o.
      Does-if host id (is_succeeded o.state || is_failed o.state) _ _ (λ stop. Does-done host id)
        (λ go.
          Does-bind host id
            (Does-if host id (is_outgoing_settled o.state) _ _
              (λ alarm. Does-report host id Level.critical id) (λ _. Does-done host id))
            λ _. fail-Does host id _ false)

  pub on_incoming_settled-Does : Does host id Always (on_incoming_settled host id) Anything
  unfolding on_incoming_settled
  on_incoming_settled-Does = Does-bind host id (Does-get_order host id) λ o.
      Does-if host id (is_outgoing_settled o.state) _ _
        (λ go. Does-bind host id (Does-now host id) λ t.
          Does-forget host id
            (Does-save host id o _ _ (mark_settled_by_node-Advance host o t (ground (arith, go)))))
        (λ _.
          Does-if host id (not (is_succeeded o.state)) _ _
            (λ odd. Does-report host id Level.critical id) (λ _. Does-done host id))

  ask_pay-Does :
      (o : Order) (limit : ℤ)
      → o.state ≡ outgoing_in_flight
      → Does host id (At id o) (ask_pay host o limit) Anything
  unfolding ask_pay
  ask_pay-Does o limit h =
      Does-bind host id (Does-lift host id _ _)
        λ amount. Does-forget host id (Does-ask host id o _ _ (h, refl, refl))

  redispatch-Does : (o : Order) → Does host id (At id o) (redispatch host id o) Anything
  unfolding redispatch
  redispatch-Does o =
      Does-if host id (not (is_outgoing_in_flight o.state)) _ _ (λ stop. Does-done host id)
        (λ go. Does-bind host id (Does-log host id Level.info id) λ _.
          Does-catch host id
            (Does-bind host id (Does-now host id) λ t. ask_pay-Does o _ (ground (arith, go)))
            (λ e. Does-report host id Level.warn id))

  reconcile_by-Does :
      (status : PaymentStatus) (preimage reason : Option String)
      → Does host id Always
          (elim status [
            | PaymentStatus.succeeded ↦ on_outgoing_settled host id preimage
            | PaymentStatus.failed ↦ on_outgoing_failed host id reason
            | PaymentStatus.no_payment ↦ get_order id >>= redispatch host id
            | PaymentStatus.in_flight ↦ done
          ])
          Anything
  reconcile_by-Does PaymentStatus.succeeded q r = on_outgoing_settled-Does q
  reconcile_by-Does PaymentStatus.failed q r = on_outgoing_failed-Does r
  reconcile_by-Does PaymentStatus.no_payment q r =
      Does-bind host id (Does-get_order host id) redispatch-Does
  reconcile_by-Does PaymentStatus.in_flight q r = Does-done host id

  pub reconcile_outgoing-Does : Does host id Always (reconcile_outgoing host id) Anything
  unfolding reconcile_outgoing ask_payment_state
  reconcile_outgoing-Does = Does-bind host id (Does-get_order host id) λ o.
      Does-bind host id (Does-ask host id o _ _ (refl, refl)) λ answer.
        Does-weaken host id
          (reconcile_by-Does answer.status (truthy answer.preimage) (truthy answer.failure_reason))

  send_outgoing-Does :
      (o : Order) (u t : ℕ)
      → Does host id (At id (mark_dispatched u o)) (send_outgoing host id o t) Anything
  unfolding send_outgoing ask_pay mark_dispatched
  send_outgoing-Does o u t =
      Does-catch host id
        (Does-bind host id (Does-lift host id _ _) λ amount.
          Does-forget host id (Does-ask host id (mark_dispatched u o) _ _ (refl, refl, refl)))
        (λ e.
          Does-bind host id (Does-log host id Level.warn id)
            λ _. Does-weaken host id reconcile_outgoing-Does)

  pub dispatch_outgoing-Does : Does host id Always (dispatch_outgoing host id) Anything
  unfolding dispatch_outgoing
  dispatch_outgoing-Does = Does-bind host id (Does-get_order host id) λ o.
      Does-if host id (not (is_incoming_held o.state) || not (is_waiting o.outgoing.status)) _ _
        (λ stop. Does-done host id)
        (λ go. Does-bind host id (Does-now host id) λ t.
          Does-if host id (leb o.incoming.tlc_expiry_at (t + host.min_safety_delta_ms)) _ _
            (λ late. refund-Does host id _ o (inl (ground (arith, go))))
            (λ _. Does-bind host id (Does-now host id) λ u.
              Does-bind host id
                (Does-save host id o _ _ (mark_dispatched-Advance host o u (ground (arith, go))))
                λ _. send_outgoing-Does o u t))

  pub on_incoming_held-Does : Does host id Always (on_incoming_held host id) Anything
  unfolding on_incoming_held
  on_incoming_held-Does = Does-bind host id (Does-get_order host id) λ o.
      Does-if host id (not (is_pending o.state)) _ _ (λ stop. Does-done host id)
        (λ go. Does-bind host id (Does-now host id) λ t.
          Does-bind host id
            (Does-save host id o _ _ (mark_held-Advance host o t (ground (arith, go))))
            λ _. Does-weaken host id dispatch_outgoing-Does)

  handle_by-Does :
      (kind : EventKind) (event : SwapLegEvent)
      → event.kind ≡ kind
      → Does host id Always (handle host id event) Anything
  unfolding handle
  handle_by-Does EventKind.incoming_held event e = rw e on_incoming_held-Does
  handle_by-Does EventKind.outgoing_settled event e = rw e (on_outgoing_settled-Does event.preimage)
  handle_by-Does EventKind.outgoing_failed event e =
      rw e (on_outgoing_failed-Does event.failure_reason)
  handle_by-Does EventKind.incoming_cancelled event e = rw e on_incoming_cancelled-Does
  handle_by-Does EventKind.incoming_settled event e = rw e on_incoming_settled-Does
  handle_by-Does EventKind.outgoing_in_flight event e = rw e (Does-done host id)

  pub handle-Does : (event : SwapLegEvent) → Does host id Always (handle host id event) Anything
  handle-Does event = handle_by-Does event.kind event refl
