-- ===== src/Orders/Completes/Expires.antt =====
-- How an order is given up (bifrostd/src/orders/engine.ts): a queued cancellation, and the job of the
-- expiry sweep.
use bitfrost.Base.{ℕ, ◌≡◌, refl, ◌⊎◌, inl, inr, String, true, false, some, none, List, arith, ◌||◌}
use bitfrost.Sdk.Types.{
  Order, Leg, OrderState, pending, incoming_held, outgoing_in_flight, ProtocolError, is_terminal,
  quote_expired, expiry_invariant_violation, internal,
}
use bitfrost.Orders.Ports.{Result, ok, err}
use bitfrost.Orders.Store
use bitfrost.Orders.Store.Keys.{IsValid}
use bitfrost.Orders.Marks.{
  failed_if_in_flight, mark_failed, mark_refunding, first_failure, is_failed, is_succeeded,
  is_refunding,
}
use bitfrost.Orders.Reasons.{failure}
use bitfrost.Orders.Protocol.{SameTerms}
use bitfrost.Orders.World.{Host, World, Call, Level, cancel, handle_error, log, ask, try_catch}
use bitfrost.Orders.Engine.{ask_cancel, fail_cancel, fail, try_cancel, refund}
use bitfrost.Orders.Engine.Advances.{mark_failed-Advance, mark_refunding-Advance}
use bitfrost.Orders.Lifecycle.{cancel_job, sweep_job}
use bitfrost.Orders.History.Jobs.{queued_cancel, run_job}
use bitfrost.Orders.Completes.{
  Stands, Reaches, Yields, Yields-bind, Yields-catch, Yields-weaken, Yields-now, Yields-get,
  Yields-ask, Yields-save, Yields-given, Yields-pure, Yields-keyed,
}
use bitfrost.Orders.Completes.Swap.{Asked, Any}

-- What the sweep writes as the reason, and what becomes of the outgoing leg.
abbrev pub swept_reason : Order → OrderState → ProtocolError
swept_reason o pending =
    first_failure o.failure
      (failure quote_expired "incoming leg never arrived before expiry" false none)
swept_reason o _ =
    failure expiry_invariant_violation "incoming expiry entered the safety window (R3)" false
      (some "ask the payer to retry with a longer-lived invoice")

abbrev pub swept_leg : Order → OrderState → Leg
swept_leg o pending = o.outgoing
swept_leg o _ = record o.outgoing { status = failed_if_in_flight o.outgoing.status }

abbrev pub IsOpen : OrderState → Type 0
IsOpen s = (s ≡ pending) ⊎ (s ≡ incoming_held) ⊎ (s ≡ outgoing_in_flight)

module _ (host : Host) (id : String) where
  handled :
      (F : List Call → Type 0) (o : Order) (r : Result (Unit {0})) (w : World)
      → Stands id o F w
      → Reaches (λ _. Stands id o F) (handle_error r (λ e. log Level.warn id) w)
  unfolding log
  handled F o (ok tt) w s = record { value = tt; returned = refl; after = s }
  handled F o (err e) w s = record {
    value = tt;
    returned = refl;
    after = record { valid = s.valid; at = s.at; so_far = s.so_far };
  }

  -- The hold's cancellation is asked for, whatever the node answers.
  fail_cancel-Yields :
      (o q : Order)
      → Yields
          (Stands id q Any)
          (fail_cancel host true id o)
          (λ _. Stands id q (Asked (cancel o.incoming.network o.payment_hash)))
  unfolding fail_cancel ask_cancel try_catch ask
  fail_cancel-Yields o q = record {
    yields = λ w s.
        handled (Asked (cancel o.incoming.network o.payment_hash)) q _ _
          (record { valid = s.valid; at = s.at; so_far = inl refl });
  }

  -- What an order that was given up looks like.
  pub record GivenUp (o : Order) (leg : Leg) (why : ProtocolError) (F : List Call → Type 0)
      (w : World) : Type 0 where
    pub order : Order
    pub stands : Stands id order F w
    pub state : order.state ≡ OrderState.failed
    pub reason : order.failure ≡ some why
    pub terms : SameTerms o order
    pub outgoing : order.outgoing ≡ leg

  pub fail-Yields :
      (o : Order) (why : ProtocolError)
      → is_terminal o.state ≡ false
      → Yields (Stands id o Any) (fail host id why true) (λ _.
        GivenUp o o.outgoing
          (first_failure o.failure why)
          (Asked (cancel o.incoming.network o.payment_hash)))
  unfolding fail mark_failed
  fail-Yields o why live = Yields-get host id Any o _ (
      let go : (is_failed o.state || is_succeeded o.state) ≡ false = ground arith in
      rw go (
        Yields-bind (Yields-now host id _ o) λ t. Yields-given λ s.
          Yields-bind
            (Yields-save host id _ o (mark_failed why t) _ (mark_failed-Advance host o t why live))
            λ x. Yields-weaken (fail_cancel-Yields o (mark_failed why t o)) (λ a w h. record {
              order = mark_failed why t o;
              stands = h;
              state = refl;
              reason = refl;
              terms = ground arith;
              outgoing = refl;
            })))

  -- The job of a cancellation does not look at the order's state again: whenever it runs on a
  -- recorded order that is not yet SUCCEEDED or FAILED, also on one whose outgoing payment is under
  -- way or has settled, the order is FAILED after it, its outgoing leg stays as it was, and the
  -- cancellation of its hold has been asked for.
  pub late_cancel_fails :
      (w : World) (o : Order)
      → IsValid w.store.index
      → Store.find id w.store ≡ some o
      → is_terminal o.state ≡ false
      → GivenUp o o.outgoing
          (first_failure o.failure (
            failure internal "cancelled by operator/client request" false
              (some "not a hub error — the client or operator requested cancellation")))
          (Asked (cancel o.incoming.network o.payment_hash))
          (run_job host (queued_cancel id) w)
  unfolding run_job cancel_job
  late_cancel_fails w o v f live =
      ((fail-Yields o _ live).yields w (record { valid = v; at = f; so_far = tt })).after

  ended-Yields :
      (o q : Order) (why : ProtocolError) (F : List Call → Type 0)
      → is_terminal q.state ≡ false
      → SameTerms o q
      → Yields
          (Stands id q F)
          (fail host id why false)
          (λ _. GivenUp o q.outgoing (first_failure q.failure why) F)
  unfolding fail fail_cancel mark_failed
  ended-Yields o q why F live same = Yields-get host id F q _ (
      let go : (is_failed q.state || is_succeeded q.state) ≡ false = ground arith in
      rw go (
        Yields-bind (Yields-now host id F q) λ t. Yields-given λ s.
          Yields-bind
            (Yields-save host id F q (mark_failed why t) _ (mark_failed-Advance host q t why live))
            λ x. Yields-weaken (Yields-pure tt) (λ a w h. record {
              order = mark_failed why t q;
              stands = h.1;
              state = refl;
              reason = refl;
              terms = ground (arith, same);
              outgoing = refl;
            })))

  try_cancel-Yields :
      (o q : Order)
      → ((n : ℕ) → (host.ports o.incoming.network).hold.cancel n o.payment_hash ≡ ok tt)
      → Yields
          (Stands id q Any)
          (try_cancel host id o)
          (λ b w. (b ≡ true) × Stands id q (Asked (cancel o.incoming.network o.payment_hash)) w)
  unfolding try_cancel ask_cancel
  try_cancel-Yields o q willing = Yields-catch _ (
      Yields-bind
        (Yields-ask host id Any (Asked (cancel o.incoming.network o.payment_hash)) q _ _ tt willing
          (λ c cs r h. inl r))
        λ u. Yields-given λ x. Yields-pure true)

  refund-Yields :
      (o : Order) (why : ProtocolError)
      → (o.state ≡ incoming_held) ⊎ (o.state ≡ outgoing_in_flight)
      → ((n : ℕ) → (host.ports o.incoming.network).hold.cancel n o.payment_hash ≡ ok tt)
      → Yields (Stands id o Any) (refund host id why) (λ _.
        GivenUp o
          (mark_refunding why 0 o).outgoing
          why
          (Asked (cancel o.incoming.network o.payment_hash)))
  unfolding refund mark_refunding
  refund-Yields o why st willing = Yields-get host id Any o _ (
      let go : (is_refunding o.state || is_failed o.state || is_succeeded o.state) ≡ false =
        ground arith in
      rw go (
        Yields-bind (Yields-now host id Any o) λ t. Yields-given λ s.
          Yields-bind
            (Yields-save host id Any o (mark_refunding why t) _
              (mark_refunding-Advance host o t why st))
            λ x. Yields-bind (try_cancel-Yields o (mark_refunding why t o) willing) λ b.
              Yields-given
                λ e. rw e (ended-Yields o (mark_refunding why t o) why _ refl (ground arith))))

  sweep-Yields :
      (o : Order)
      → IsOpen o.state
      → ((n : ℕ) → (host.ports o.incoming.network).hold.cancel n o.payment_hash ≡ ok tt)
      → Yields (Stands id o Any) (sweep_job host id) (λ _.
        GivenUp o
          (swept_leg o o.state)
          (swept_reason o o.state)
          (Asked (cancel o.incoming.network o.payment_hash)))
  unfolding sweep_job mark_refunding
  sweep-Yields o st willing = Yields-keyed host id Any o λ same. Yields-get host id Any o _ (
      simp same (elim st [
        | inl p ↦ simp p (fail-Yields o _ (ground (arith, p)))
        | inr (inl h) ↦ simp h (refund-Yields o _ (inl h) willing)
        | inr (inr h) ↦ simp h (refund-Yields o _ (inr h) willing)
      ]))

  pub swept_job_unwinds :
      (w : World) (o : Order)
      → IsValid w.store.index
      → Store.find id w.store ≡ some o
      → IsOpen o.state
      → ((n : ℕ) → (host.ports o.incoming.network).hold.cancel n o.payment_hash ≡ ok tt)
      → GivenUp o
          (swept_leg o o.state)
          (swept_reason o o.state)
          (Asked (cancel o.incoming.network o.payment_hash))
          (sweep_job host id w).1
  swept_job_unwinds w o v f st willing =
      ((sweep-Yields o st willing).yields w (record { valid = v; at = f; so_far = tt })).after
