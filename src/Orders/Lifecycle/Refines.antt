-- ===== src/Orders/Lifecycle/Refines.antt =====
-- The jobs of bifrostd/src/orders/engine.ts on one order keep to the protocol: cancellation, the
-- expiry sweep, recovery, and what follows the creation.
use bitfrost.Base.{◌≡◌, refl, inl, String, true, false, arith, str_eq, ◌||◌, ◌&&◌}
use bitfrost.Sdk.Types.{Order, refunding}
use bitfrost.Orders.Ports.{HoldInvoiceState}
use bitfrost.Orders.Marks.{
  is_pending, is_incoming_held, is_outgoing_in_flight, is_outgoing_settled, is_refunding,
}
use bitfrost.Orders.World.{Host, Level}
use bitfrost.Orders.Lifecycle.{
  is_gone, cancel_job, sweep_job, complete_refund, refund_retry, reconcile_rest, reconcile_incoming,
  reconcile,
}
use bitfrost.Orders.Engine.{ask_invoice_state, ask_cancel}
use bitfrost.Orders.Runs.{
  Always, Anything, At, Does, Does-weaken, Does-if, Does-bind, Does-catch, Does-get_order,
  Does-again, Does-keyed, Does-log, Does-ask, Does-done, Does-report,
}
use bitfrost.Orders.Engine.Unwinds.{fail-Does, refund-Does}
use bitfrost.Orders.Engine.Refines.{
  on_incoming_held-Does, on_incoming_cancelled-Does, on_incoming_settled-Does,
  reconcile_outgoing-Does,
}

module _ (host : Host) (id : String) where
  pub cancel_job-Does : Does host id Always (cancel_job host id) Anything
  unfolding cancel_job
  cancel_job-Does = fail-Does host id _ true

  pub sweep_job-Does : Does host id Always (sweep_job host id) Anything
  unfolding sweep_job
  sweep_job-Does = Does-bind host id (Does-get_order host id) λ o. Does-keyed host id o λ same.
      simp same (
        Does-if host id (is_pending o.state) _ _
          (λ waits. Does-weaken host id (fail-Does host id _ true))
          (λ _.
            Does-if host id (is_incoming_held o.state || is_outgoing_in_flight o.state) _ _
              (λ go. refund-Does host id _ o (ground (arith, go))) (λ _. Does-done host id)))

  complete_refund-Does :
      (order : Order) → Does host id Always (complete_refund host id order) Anything
  unfolding complete_refund
  complete_refund-Does order = fail-Does host id _ false

  refund_retry-Does :
      (o : Order) → o.state ≡ refunding → Does host id (At id o) (refund_retry host id) Anything
  unfolding refund_retry ask_invoice_state ask_cancel
  refund_retry-Does o h = Does-again host id o _ (
      Does-bind host id (Does-ask host id o _ _ (refl, refl)) λ incoming.
        Does-if host id (is_gone incoming) _ _
          (λ gone. Does-weaken host id (complete_refund-Does o))
          (λ _.
            Does-catch host id
              (Does-bind host id (Does-ask host id o _ _ (inl h, refl, refl))
                λ _. Does-weaken host id (complete_refund-Does o))
              (λ e. Does-report host id Level.warn id)))

  reconcile_rest-Does : Does host id Always (reconcile_rest host id) Anything
  unfolding reconcile_rest
  reconcile_rest-Does = Does-bind host id (Does-get_order host id) λ o.
      Does-if host id (is_outgoing_in_flight o.state || is_outgoing_settled o.state) _ _
        (λ sent. Does-weaken host id (reconcile_outgoing-Does host id))
        (λ _.
          Does-if host id (is_refunding o.state) _ _
            (λ go. refund_retry-Does o (ground (arith, go))) (λ _. Does-done host id))

  reconcile_incoming-Does :
      (order : Order) (state : HoldInvoiceState)
      → Does host id Always (reconcile_incoming host id order state) Anything
  unfolding reconcile_incoming
  reconcile_incoming-Does order HoldInvoiceState.held =
      Does-bind host id
        (Does-if host id (is_pending order.state) _ _ (λ go. on_incoming_held-Does host id)
          (λ _. Does-done host id))
        λ _. reconcile_rest-Does
  reconcile_incoming-Does order HoldInvoiceState.cancelled = on_incoming_cancelled-Does host id
  reconcile_incoming-Does order HoldInvoiceState.settled =
      Does-if host id (is_outgoing_settled order.state) _ _ (λ go. on_incoming_settled-Does host id)
        (λ _. reconcile_rest-Does)
  reconcile_incoming-Does order HoldInvoiceState.open_invoice = reconcile_rest-Does
  reconcile_incoming-Does order HoldInvoiceState.unknown = reconcile_rest-Does

  pub reconcile-Does : Does host id Always (reconcile host id) Anything
  unfolding reconcile ask_invoice_state
  reconcile-Does = Does-bind host id (Does-get_order host id) λ o.
      Does-bind host id (Does-log host id Level.info id) λ _.
        Does-if host id (is_pending o.state && str_eq o.incoming.invoice "") _ _
          (λ crashed. Does-weaken host id (fail-Does host id _ true))
          (λ _.
            Does-bind host id (Does-ask host id o _ _ (refl, refl))
              λ state. Does-weaken host id (reconcile_incoming-Does o state))
