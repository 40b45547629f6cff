-- ===== src/Api/Server/Cancelling.antt =====
-- POST /v1/orders/:id/cancel of bifrostd/src/api/server.ts.
use bitfrost.Base.{
  ◌≡◌, refl, ◌∙◌, String, Bool, true, false, not, ◌&&◌, ◌||◌, Option, none, some, if◌then◌else◌,
  arith,
}
use bitfrost.Base.Codes.{codes, contains, codes-append}
use bitfrost.Sdk.Types.{Order, OrderState, state_text, internal, bifrost, Thrown}
use bitfrost.Orders.Store
use bitfrost.Orders.Store.Keys.{IsValid}
use bitfrost.Orders.Ports.{Result, ok, err}
use bitfrost.Orders.Marks.{is_pending, is_incoming_held}
use bitfrost.Orders.Reasons.{failure}
use bitfrost.Orders.World.{Host, World, cancel, ◌>>=◌, get_order, find_order}
use bitfrost.Orders.Lifecycle.{cancel_order, cancel_check, cancel_job, unknown_order, cannot_cancel}
use bitfrost.Orders.Completes.Swap.{Asked}
use bitfrost.Orders.Completes.Expires.{fail-Yields}
use bitfrost.Api.Stream.{on_order_changed}
use bitfrost.Api.Server.{Hub, Response, answer, as_bifrost, order_body, error_body}

-- `/unknown order/.test(be.message)`.
unfoldable pub says_unknown : String → Bool
says_unknown message = contains (codes "unknown order") (codes message)

abbrev refused : Thrown → Response
refused e = record {
  status = if says_unknown (as_bifrost e).message then 404 else 409;
  body = error_body (as_bifrost e);
}

abbrev cancelled : Hub → Result Order × World → Response × Hub
cancelled hub (ok o, w) = (
  answer (order_body o),
  record hub { world = w; rejections = on_order_changed o hub.rejections },
)
cancelled hub (err e, w) = (refused e, record hub { world = w })

unfoldable pub handle_cancel : Host → String → Hub → Response × Hub
unfolding cancel_order on_order_changed as_bifrost says_unknown
handle_cancel host id hub = cancelled hub (cancel_order host id hub.world)

-- The states in which an order may be cancelled.
abbrev is_cancellable : OrderState → Bool
is_cancellable s = is_pending s || is_incoming_held s

module _ (host : Host) (id : String) (hub : Hub) where
  unknown_eq :
      Store.find id hub.world.store ≡ none
      → cancel_order host id hub.world
        ≡ (err (bifrost (failure internal (unknown_order id) false none)), hub.world)
  unfolding cancel_order cancel_check find_order ◌>>=◌
  unknown_eq h = rw h refl

  late_eq :
      (o : Order)
      → Store.find id hub.world.store ≡ some o
      → is_cancellable o.state ≡ false
      → cancel_order host id hub.world
        ≡ (err (bifrost (failure internal (cannot_cancel o.state) false none)), hub.world)
  unfolding cancel_order cancel_check find_order ◌>>=◌
  late_eq o h p =
      let late : (not (is_pending o.state) && not (is_incoming_held o.state)) ≡ true =
        ground (arith, p) in
      rw (h, late) refl

  open_eq :
      (o : Order)
      → Store.find id hub.world.store ≡ some o
      → is_cancellable o.state ≡ true
      → cancel_order host id hub.world ≡ (cancel_job host id >>= λ u. get_order id) hub.world
  unfolding cancel_order cancel_check find_order ◌>>=◌
  open_eq o h p =
      let early : (not (is_pending o.state) && not (is_incoming_held o.state)) ≡ false =
        ground (arith, p) in
      rw (h, early) refl

  -- An order that was cancelled on request.
  pub record Cancelled (o : Order) (r : Response × Hub) : Type 0 where
    pub order : Order
    pub answered : r.0 ≡ answer (order_body order)
    pub state : order.state ≡ OrderState.failed
    pub recorded : Store.find id r.1.world.store ≡ some order
    pub asked : Asked (cancel o.incoming.network o.payment_hash) r.1.world.calls

  got_eq :
      (w : World) (o : Order)
      → (cancel_job host id w).0 ≡ ok tt
      → Store.find id (cancel_job host id w).1.store ≡ some o
      → (cancel_job host id >>= λ u. get_order id) w ≡ (ok o, (cancel_job host id w).1)
  unfolding get_order ◌>>=◌
  got_eq w o e h = rw (e, h) refl

  cancel_succeeds :
      (o : Order)
      → IsValid hub.world.store.index
      → Store.find id hub.world.store ≡ some o
      → is_cancellable o.state ≡ true
      → Cancelled o (handle_cancel host id hub)
  unfolding handle_cancel cancel_job
  cancel_succeeds o v f p =
      let r =
        (fail-Yields host id o _ (ground (arith, p))).yields hub.world
          (record { valid = v; at = f; so_far = tt }) in
      let e = open_eq o f p ∙ got_eq hub.world r.after.order (r.returned) r.after.stands.at in
      rw e (record {
        order = r.after.order;
        answered = refl;
        state = r.after.state;
        recorded = r.after.stands.at;
        asked = r.after.stands.so_far;
      })

  -- What the request answers.
  abbrev CancelBy : Order → Bool → Response × Hub → Type 0
  CancelBy o true r = Cancelled o r
  CancelBy o false r = (r.0.status ≡ 409) × (r.1.world ≡ hub.world)

  abbrev pub CancelAnswer : Option Order → Response × Hub → Type 0
  CancelAnswer none r = (r.0.status ≡ 404) × (r.1.world ≡ hub.world)
  CancelAnswer (some o) r = CancelBy o (is_cancellable o.state) r

  says_unknown_id : says_unknown (unknown_order id) ≡ true
  unfolding says_unknown
  says_unknown_id = rw (codes-append "unknown order " id) refl

  says_late : (s : OrderState) → says_unknown (cannot_cancel s) ≡ false
  unfolding says_unknown state_text
  says_late OrderState.pending = refl
  says_late OrderState.incoming_held = refl
  says_late OrderState.outgoing_in_flight = refl
  says_late OrderState.outgoing_settled = refl
  says_late OrderState.succeeded = refl
  says_late OrderState.refunding = refl
  says_late OrderState.failed = refl

  cancelled_some :
      (o : Order) (b : Bool)
      → is_cancellable o.state ≡ b
      → IsValid hub.world.store.index
      → Store.find id hub.world.store ≡ some o
      → CancelBy o b (handle_cancel host id hub)
  unfolding handle_cancel as_bifrost
  cancelled_some o true p v f = cancel_succeeds o v f p
  cancelled_some o false p v f = rw (late_eq o f p, says_late o.state) (refl, refl)

  cancelled_by :
      (o : Option Order)
      → Store.find id hub.world.store ≡ o
      → IsValid hub.world.store.index
      → CancelAnswer o (handle_cancel host id hub)
  unfolding handle_cancel as_bifrost
  cancelled_by none e v = rw (unknown_eq e, says_unknown_id) (refl, refl)
  cancelled_by (some o) e v = cancelled_some o _ refl v e

  -- What a request to cancel answers, on every branch: 404 where the order is unknown, and 409 where
  -- it is neither PENDING nor INCOMING_HELD, and in both the engine is left as it was; else 200 with
  -- the order, which is now recorded as FAILED, and the cancellation of its hold has been asked for.
  -- It is assumed that the maps of the store agree, and that no other job of the order is queued
  -- between the check and the cancellation.
  pub cancel_answers :
      IsValid hub.world.store.index
      → CancelAnswer (Store.find id hub.world.store) (handle_cancel host id hub)
  cancel_answers = cancelled_by _ refl
