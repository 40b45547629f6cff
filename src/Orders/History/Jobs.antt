-- ===== src/Orders/History/Jobs.antt =====
-- What reaches the engine of bifrostd/src/orders/engine.ts, one after the other: its methods, the two
-- parts of `createOrder` before and after the answer of the node, and the queued part of a cancellation,
-- of a sweep, of a recovery and of an event. Other jobs can come between such parts.
use bitfrost.Base.{
  ℕ, ◌≡◌, refl, inl, inr, String, not, Option, none, some, List, [], ◌∷◌, ◌&&◌, Option-cases,
}
use bitfrost.Base.Dict.{get-set_self}
use bitfrost.Sdk.Types.{Order}
use bitfrost.Orders.Store
use bitfrost.Orders.Store.{Store}
use bitfrost.Orders.Store.Keys.{IsValid, create_inv}
use bitfrost.Orders.Ports.{SwapLegEvent}
use bitfrost.Orders.Marks.{is_pending, is_incoming_held}
use bitfrost.Orders.World.{
  Host, World, Action, create, set_ready, open_orders, find_by_hash, ◌>>=◌, throw, pure, done,
}
use bitfrost.Orders.Preimage.{is_hash256}
use bitfrost.Orders.Protocol.{quiet}
use bitfrost.Orders.Runs.{
  Anything, At, Does, Does-bind, Does-ask, Does-now, Does-forget, Does-weaken, Does-find_order,
  Does-get_order, Does-pure, Does-rewrite, Does-done, Does-if, Does-throw,
}
use bitfrost.Orders.Engine.Advances.{mark_invoice-Advance}
use bitfrost.Orders.Engine.{handle}
use bitfrost.Orders.Engine.Refines.{handle-Does}
use bitfrost.Orders.Lifecycle.{
  CreateOrderParams, new_order, open_hold, admit_order, request_order, issue_invoice, cancel_check,
  cancel_job, cancel_order, handle_found, on_leg_event, sweep_job, reconcile, sweep_each,
  sweep_expiries, reconcile_each, start,
}
use bitfrost.Orders.Lifecycle.Refines.{cancel_job-Does, sweep_job-Does, reconcile-Does}
use bitfrost.Orders.History.{
  IsNew, History, more, admit, Runs-History, History_trans, Keeps, Keeps-pure, Keeps-throw,
  Keeps-lift, Keeps-now, Keeps-Does, Keeps-if, Keeps-bind, History-IsValid,
}

pub data Job : Type 0 where
  create_job : CreateOrderParams → Job
  invoice_job : String → String → Job
  cancel_request queued_cancel queued_sweep queued_reconcile : String → Job
  queued_event : String → SwapLegEvent → Job
  leg_event : SwapLegEvent → Job
  sweep recover : Job

module _ (host : Host) where
  unfoldable pub run_job : Job → World → World
  run_job (create_job p) w = (request_order host p w).1
  run_job (invoice_job id invoice) w = (issue_invoice host id invoice w).1
  run_job (cancel_request id) w = (cancel_order host id w).1
  run_job (queued_cancel id) w = (cancel_job host id w).1
  run_job (queued_sweep id) w = (sweep_job host id w).1
  run_job (queued_reconcile id) w = (reconcile host id w).1
  run_job (queued_event id ev) w = (handle host id ev w).1
  run_job (leg_event ev) w = (on_leg_event host ev w).1
  run_job sweep w = (sweep_expiries host w).1
  run_job recover w = (start host w).1

  unfoldable pub run_jobs : List Job → World → World
  run_jobs [] w = w
  run_jobs (j ∷ js) w = run_jobs js (run_job j w)

  -- What `admit_order` does once the order is created.
  after_create : CreateOrderParams → String → ℕ → Action (String × String)
  after_create p id t = do invoice ← open_hold host p id t; pure (id, invoice)

  after_create-Does :
      (p : CreateOrderParams) (id : String) (t : ℕ)
      → Does host id (At id (new_order p id t)) (after_create p id t) Anything
  unfolding after_create open_hold new_order
  after_create-Does p id t =
      Does-bind host id (Does-ask host id (new_order p id t) _ _ (refl, refl, refl))
        λ i. Does-forget host id (Does-pure host id (id, i))

  refused_eq :
      (p : CreateOrderParams) (id : String) (t : ℕ) (w : World)
      → Store.create (new_order p id t) w.store ≡ none
      → (admit_order host p id t w).1 ≡ w
  unfolding admit_order create ◌>>=◌
  refused_eq p id t w e = rw e refl

  admitted_eq :
      (p : CreateOrderParams) (id : String) (t : ℕ) (w : World) (s : Store)
      → Store.create (new_order p id t) w.store ≡ some s
      → admit_order host p id t w ≡ after_create p id t (record w { store = s })
  unfolding admit_order after_create create ◌>>=◌
  admitted_eq p id t w s e = rw e refl

  admitted-History :
      (p : CreateOrderParams) (id : String) (t : ℕ) (w : World)
      → IsValid w.store.index
      → IsNew (new_order p id t) w.store
      → History host w
          (after_create p id t (record w { store = Store.created (new_order p id t) w.store })).1
  unfolding Store.created new_order
  admitted-History p id t w v n =
      let h : History host w (record w { store = Store.created (new_order p id t) w.store }) =
        admit _ History.start n refl refl in
      History_trans host h (
        Runs-History host id (
          (after_create-Does p id t).runs _ (History-IsValid host v h)
            (get-set_self id _ w.store.orders)))

  admit_order-Keeps :
      (p : CreateOrderParams) (id : String) (t : ℕ) → Keeps host (admit_order host p id t)
  unfolding new_order
  admit_order-Keeps p id t = record {
    keeps = λ w v. elim (Option-cases (Store.create (new_order p id t) w.store)) [
      | inl e ↦ rw (refused_eq p id t w e) History.start
      | inr (s, e) ↦
          let (free, new, same) = create_inv (new_order p id t) w.store e in
          rw (admitted_eq p id t w s e, same)
            (admitted-History p id t w v (record {
              starts = refl;
              not_sent = refl;
              not_failed = refl;
              free_id = free;
              free_hash = new;
            }))
    ];
  }

  pub request_order-Keeps : (p : CreateOrderParams) → Keeps host (request_order host p)
  unfolding request_order
  request_order-Keeps p = record {
    keeps = λ w v.
        (Keeps-if host (not w.ready) _ _ (Keeps-throw host _) (
            Keeps-if host (not (is_hash256 p.payment_hash)) _ _ (Keeps-throw host _) (
              Keeps-bind host (Keeps-now host) λ t. Keeps-bind host (Keeps-lift host _ _) λ wide.
                Keeps-if host (not wide) _ _ (Keeps-throw host _) (admit_order-Keeps p _ t)))).keeps
          w v;
  }

  issue_invoice-Keeps : (id invoice : String) → Keeps host (issue_invoice host id invoice)
  unfolding issue_invoice
  issue_invoice-Keeps id invoice = Keeps-Does host id (
      Does-bind host id (Does-now host id)
        λ u. Does-rewrite host id _ _ λ o. mark_invoice-Advance host o u invoice)

  cancel_order-Keeps : (id : String) → Keeps host (cancel_order host id)
  unfolding cancel_order cancel_check
  cancel_order-Keeps id = Keeps-Does host id (
      Does-bind host id
        (Does-bind host id (Does-weaken host id (Does-find_order host id _)) λ o.
          Does-if host id (not (is_pending o.state) && not (is_incoming_held o.state)) (throw _)
            done (λ bad. Does-throw host id _) (λ _. Does-done host id))
        λ _.
          Does-bind host id (cancel_job-Does host id)
            λ _. Does-forget host id (Does-get_order host id))

  handle_found-Keeps :
      (found : Option Order) (ev : SwapLegEvent) → Keeps host (handle_found host found ev)
  unfolding handle_found
  handle_found-Keeps none ev = Keeps-pure host tt
  handle_found-Keeps (some o) ev = Keeps-Does host o.order_id (handle-Does host o.order_id ev)

  on_leg_event-Keeps : (ev : SwapLegEvent) → Keeps host (on_leg_event host ev)
  unfolding on_leg_event find_by_hash
  on_leg_event-Keeps ev =
      Keeps-bind host (record { keeps = λ w v. History.start }) λ found. handle_found-Keeps found ev

  sweep_each-Keeps : (t : ℕ) (orders : List Order) → Keeps host (sweep_each host t orders)
  unfolding sweep_each
  sweep_each-Keeps t [] = Keeps-pure host tt
  sweep_each-Keeps t (o ∷ os) =
      Keeps-bind host
        (Keeps-if host _ _ _ (Keeps-pure host tt)
          (Keeps-Does host o.order_id (sweep_job-Does host o.order_id)))
        λ _. sweep_each-Keeps t os

  reconcile_each-Keeps : (orders : List Order) → Keeps host (reconcile_each host orders)
  unfolding reconcile_each
  reconcile_each-Keeps [] = Keeps-pure host tt
  reconcile_each-Keeps (o ∷ os) =
      Keeps-bind host (Keeps-Does host o.order_id (reconcile-Does host o.order_id))
        λ _. reconcile_each-Keeps os

  run_job-History : (j : Job) (w : World) → IsValid w.store.index → History host w (run_job j w)
  unfolding run_job sweep_expiries start open_orders set_ready
  run_job-History (create_job p) w v = (request_order-Keeps p).keeps w v
  run_job-History (invoice_job id invoice) w v = (issue_invoice-Keeps id invoice).keeps w v
  run_job-History (cancel_request id) w v = (cancel_order-Keeps id).keeps w v
  run_job-History (queued_cancel id) w v = (Keeps-Does host id (cancel_job-Does host id)).keeps w v
  run_job-History (queued_sweep id) w v = (Keeps-Does host id (sweep_job-Does host id)).keeps w v
  run_job-History (queued_reconcile id) w v =
      (Keeps-Does host id (reconcile-Does host id)).keeps w v
  run_job-History (queued_event id ev) w v = (Keeps-Does host id (handle-Does host id ev)).keeps w v
  run_job-History (leg_event ev) w v = (on_leg_event-Keeps ev).keeps w v
  run_job-History sweep w v =
      (Keeps-bind host (Keeps-now host)
          λ t. Keeps-bind host (record { keeps = λ w v. History.start }) (sweep_each-Keeps t)).keeps
        w v
  run_job-History recover w v =
      (Keeps-bind host (record { keeps = λ w v. History.start })
          λ orders.
            Keeps-bind host (reconcile_each-Keeps orders)
              λ _. record { keeps = λ w v. more "" History.start (quiet refl refl) }).keeps
        w v

  -- Whatever jobs run, from maps that agree, and whatever the nodes answer, the engine runs through a
  -- history. In it every change of the store is the creation of a new PENDING order, or a write into
  -- a recorded order that keeps its terms and either leaves its state, or takes an arrow of
  -- spec/PROTOCOL.md 4.4, or fails it without REFUNDING from INCOMING_HELD, OUTGOING_IN_FLIGHT or
  -- OUTGOING_SETTLED; and every call of a node is one that the recorded order permits.
  pub run_jobs-History :
      (js : List Job) (w : World) → IsValid w.store.index → History host w (run_jobs js w)
  unfolding run_jobs
  run_jobs-History [] w v = History.start
  run_jobs-History (j ∷ js) w v =
      let h = run_job-History j w v in
      History_trans host h (run_jobs-History js _ (History-IsValid host v h))
