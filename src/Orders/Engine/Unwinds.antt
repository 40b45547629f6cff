-- ===== src/Orders/Engine/Unwinds.antt =====
-- `fail` and `refund` of bifrostd/src/orders/engine.ts keep to the protocol, whatever the nodes
-- answer.
use bitfrost.Base.{ℕ, ◌≡◌, refl, ◌⊎◌, inl, inr, String, Bool, true, false, arith, ◌||◌}
use bitfrost.Sdk.Types.{Order, incoming_held, outgoing_in_flight, ProtocolError}
use bitfrost.Orders.Marks.{is_failed, is_succeeded, is_refunding, mark_failed, mark_refunding}
use bitfrost.Orders.World.{Host, Level}
use bitfrost.Orders.Engine.{fail_cancel, fail, try_cancel, refund}
use bitfrost.Orders.Runs.{
  Always, Anything, At, Does, Does-pure, Does-now, Does-log, Does-forget, Does-if, Does-bind,
  Does-catch, Does-get_order, Does-again, Does-ask, Does-save, Does-done, Does-report,
}
use bitfrost.Orders.Engine.Advances.{mark_refunding-Advance, mark_failed-Advance}
use bitfrost.Orders.Protocol.{Licensed}
use bitfrost.Orders.World.{cancel}

module _ (host : Host) (id : String) where
  fail_cancel-Does :
      (b : Bool) (order : Order) (why : ProtocolError) (t : ℕ)
      → Does host id (At id (mark_failed why t order)) (fail_cancel host b id order) Anything
  unfolding fail_cancel mark_failed
  fail_cancel-Does false order why t = Does-done host id
  fail_cancel-Does true order why t =
      Does-catch host id
        (Does-forget host id
          (Does-ask host id (mark_failed why t order) _ _ (inr refl, refl, refl)))
        (λ e. Does-report host id Level.warn id)

  pub fail-Does :
      (why : ProtocolError) (cancel_incoming : Bool)
      → Does host id Always (fail host id why cancel_incoming) Anything
  unfolding fail
  fail-Does why c = Does-bind host id (Does-get_order host id) λ order.
      Does-if host id (is_failed order.state || is_succeeded order.state) _ _
        (λ stop. Does-done host id)
        (λ go. Does-bind host id (Does-now host id) λ t.
          Does-bind host id
            (Does-save host id order _ _ (mark_failed-Advance host order t why (ground arith)))
            λ _. fail_cancel-Does c order why t)

  try_cancel-Does :
      (order o : Order)
      → Licensed host o (cancel order.incoming.network order.payment_hash)
      → Does host id (At id o) (try_cancel host id order) Anything
  unfolding try_cancel
  try_cancel-Does order o l =
      Does-catch host id
        (Does-bind host id (Does-ask host id o _ _ l)
          λ _. Does-forget host id (Does-pure host id true))
        (λ e.
          Does-bind host id (Does-log host id Level.warn id)
            λ _. Does-forget host id (Does-pure host id false))

  pub refund-Does :
      (why : ProtocolError) (o : Order)
      → (o.state ≡ incoming_held) ⊎ (o.state ≡ outgoing_in_flight)
      → Does host id (At id o) (refund host id why) Anything
  unfolding refund mark_refunding
  refund-Does why o h = Does-again host id o _ (
      Does-if host id (is_refunding o.state || is_failed o.state || is_succeeded o.state) _ _
        (λ stop. Does-done host id)
        (λ go. Does-bind host id (Does-now host id) λ t.
          Does-bind host id (Does-save host id o _ _ (mark_refunding-Advance host o t why h)) λ _.
            Does-bind host id (try_cancel-Does o (mark_refunding why t o) (inl refl, refl, refl))
              λ cancelled.
                Does-if host id cancelled _ _ (λ yes_. fail-Does why false)
                  (λ no_. Does-done host id)))
