-- ===== src/Orders/Completes/Swap.antt =====
-- A swap runs to its end (bifrostd/src/orders/engine.ts): the incoming hold, the dispatch, the
-- preimage of the outgoing leg, and the settlement of the hold.
use bitfrost.Base.{
  ℕ, ◌≡◌, refl, sym, ◌∙◌, ◌+◌, ◌<◌, ◌⊎◌, inl, String, true, false, some, List, [], ◌∷◌, arith,
  str_eq, leb,
}
use bitfrost.Base.Int.{ℤ}
use bitfrost.Base.Decimal.{big_int}
use bitfrost.Sdk.Types.{
  Order, Hash256, pending, incoming_held, outgoing_in_flight, outgoing_settled, succeeded, waiting,
}
use bitfrost.Orders.Ports.{ok, SwapLegEvent, EventKind, PayRequest}
use bitfrost.Orders.Marks.{mark_held, mark_dispatched, mark_outgoing_settled, mark_succeeded}
use bitfrost.Orders.Protocol.{SameTerms}
use bitfrost.Orders.Store
use bitfrost.Orders.Store.Keys.{IsValid}
use bitfrost.Orders.Lifecycle.{on_leg_event}
use bitfrost.Orders.History.Jobs.{leg_event, run_job, run_jobs}
use bitfrost.Orders.World.{Host, World, Call, Level, Request, settle}
use bitfrost.Orders.Engine.{
  ask_pay, ask_settle, matches, send_outgoing, dispatch_outgoing, on_incoming_held, settle_verified,
  settle_incoming, accept_preimage, on_outgoing_settled, handle,
}
use bitfrost.Orders.Engine.Advances.{
  mark_held-Advance, mark_dispatched-Advance, mark_outgoing_settled-Advance, mark_succeeded-Advance,
}
use bitfrost.Orders.Completes.{
  Stands, Shown, Afterwards, Yields, Yields-bind, Yields-catch, Yields-lift, Yields-weaken,
  Yields-now, Yields-log, Yields-get, Yields-ask, Yields-save, Yields-given, Yields-event,
}

-- A call among those that were made.
abbrev pub Asked : Request → List Call → Type 0
Asked r [] = ⊥
Asked r (c ∷ cs) = (c.request ≡ r) ⊎ Asked r cs

abbrev pub Any : List Call → Type 0
Any cs = Unit

module _ (host : Host) (id : String) where
  -- An order whose outgoing leg is under way.
  pub record Sent (o : Order) (w : World) : Type 0 where
    pub order : Order
    pub stands : Stands id order Any w
    pub state : order.state ≡ outgoing_in_flight
    pub terms : SameTerms o order

  -- The node that pays accepts the payment, and the amount is a number.
  pub record Willing (o : Order) : Type 0 where
    pub amount : ℤ
    pub reads : big_int o.outgoing.amount ≡ some amount
    pub pays :
        (n : ℕ) (p : PayRequest)
        → (host.ports o.outgoing.network).pay_port.pay n o.outgoing.invoice p ≡ ok tt

  ask_pay-Yields :
      (o q : Order) (limit : ℤ)
      → Willing o
      → Yields (Stands id q Any) (ask_pay host o limit) (Afterwards (Stands id q Any))
  unfolding ask_pay
  ask_pay-Yields o q limit w = Yields-bind (Yields-lift _ _ w.amount w.reads) λ amount.
      Yields-given λ e.
        Yields-weaken (Yields-ask host id Any Any q _ _ tt (λ n. w.pays n _) (λ c cs r h. tt))
          (λ u v h. h.1)

  settle_verified-Yields :
      (o : Order) (p : Hash256)
      → o.state ≡ outgoing_settled
      → matches host p o.payment_hash ≡ true
      → o.outgoing.preimage ≡ some p
      → ((n : ℕ) → (host.ports o.incoming.network).hold.settle n o.payment_hash p ≡ ok tt)
      → Yields (Stands id o Any) (settle_verified host id o (some p)) (λ _ w.
        (t : ℕ) × Stands id
          (mark_succeeded p t o)
          (Asked (settle o.incoming.network o.payment_hash p))
          w)
  unfolding settle_verified ask_settle
  settle_verified-Yields o p st m e willing = rw m (
      Yields-bind
        (Yields-ask host id Any (Asked (settle o.incoming.network o.payment_hash p)) o _ _ tt
          willing (λ c cs r h. inl r))
        λ u. Yields-given λ x. Yields-bind (Yields-now host id _ o) λ t. Yields-given λ s.
          Yields-bind
            (Yields-save host id _ o (mark_succeeded p t) _
              (mark_succeeded-Advance host o t p st e))
            λ x2. Yields-weaken (Yields-log host id _ _ Level.info id) (λ a w h. (t, h)))

  settle_incoming-Yields :
      (o : Order) (p : Hash256)
      → o.state ≡ outgoing_settled
      → matches host p o.payment_hash ≡ true
      → o.outgoing.preimage ≡ some p
      → str_eq p "" ≡ false
      → ((n : ℕ) → (host.ports o.incoming.network).hold.settle n o.payment_hash p ≡ ok tt)
      → Yields (Stands id o Any) (settle_incoming host id) (λ _ w.
        (t : ℕ) × Stands id
          (mark_succeeded p t o)
          (Asked (settle o.incoming.network o.payment_hash p))
          w)
  unfolding settle_incoming
  settle_incoming-Yields o p st m e full willing =
      Yields-get host id Any o _ (simp (st, e, full) (settle_verified-Yields o p st m e willing))

  -- What the end of a swap looks like.
  pub record SwapDone (o : Order) (p : Hash256) (w : World) : Type 0 where
    pub order : Order
    pub stands : Stands id order (Asked (settle o.incoming.network o.payment_hash p)) w
    pub state : order.state ≡ succeeded
    pub proof : order.incoming.preimage ≡ some p
    pub terms : SameTerms o order

  settled-Yields :
      (o : Order) (p : Hash256)
      → o.state ≡ outgoing_in_flight
      → matches host p o.payment_hash ≡ true
      → str_eq p "" ≡ false
      → ((n : ℕ) → (host.ports o.incoming.network).hold.settle n o.payment_hash p ≡ ok tt)
      → Yields (Stands id o Any) (on_outgoing_settled host id (some p)) (λ _. SwapDone o p)
  unfolding on_outgoing_settled accept_preimage mark_outgoing_settled mark_succeeded
  settled-Yields o p st m full willing = Yields-get host id Any o _ (
      simp (st, full, m)
        (Yields-bind (Yields-now host id _ o) λ t. Yields-given λ s.
          Yields-bind
            (Yields-save host id _ o (mark_outgoing_settled p t) _
              (mark_outgoing_settled-Advance host o t p st full m))
            λ x.
              Yields-weaken
                (settle_incoming-Yields (mark_outgoing_settled p t o) p refl m refl full willing)
                (λ a w h. record {
                  order = mark_succeeded p h.0 (mark_outgoing_settled p t o);
                  stands = h.1;
                  state = refl;
                  proof = refl;
                  terms = ground arith;
                })))

  -- Before the safety window, the time passes the check at dispatch.
  early :
      (o : Order) (t : ℕ)
      → ((n : ℕ) → host.clock n + host.min_safety_delta_ms < o.incoming.tlc_expiry_at)
      → Shown host t
      → leb o.incoming.tlc_expiry_at (t + host.min_safety_delta_ms) ≡ false
  early o t h s = ground (arith, h s.tick, s.shows)

  dispatch-Yields :
      (o : Order)
      → o.state ≡ incoming_held
      → o.outgoing.status ≡ waiting
      → Willing o
      → ((n : ℕ) → host.clock n + host.min_safety_delta_ms < o.incoming.tlc_expiry_at)
      → Yields (Stands id o Any) (dispatch_outgoing host id) (λ _. Sent o)
  unfolding dispatch_outgoing send_outgoing mark_dispatched
  dispatch-Yields o st idle willing ahead = Yields-get host id Any o _ (
      simp (st, idle)
        (Yields-bind (Yields-now host id _ o) λ t. Yields-given λ s. simp (early o t ahead s) (
          Yields-bind (Yields-now host id _ o) λ u. Yields-given λ s2.
            Yields-bind
              (Yields-save host id _ o (mark_dispatched u) _ (mark_dispatched-Advance host o u st))
              λ x.
                Yields-weaken (Yields-catch _ (ask_pay-Yields o (mark_dispatched u o) _ willing))
                  (λ a w h. record {
                    order = mark_dispatched u o;
                    stands = h;
                    state = refl;
                    terms = ground arith;
                  }))))

  held-Yields :
      (o : Order)
      → o.state ≡ pending
      → o.outgoing.status ≡ waiting
      → Willing o
      → ((n : ℕ) → host.clock n + host.min_safety_delta_ms < o.incoming.tlc_expiry_at)
      → Yields (Stands id o Any) (on_incoming_held host id) (λ _. Sent o)
  unfolding on_incoming_held mark_held
  held-Yields o st idle willing ahead = Yields-get host id Any o _ (
      simp (st) (
        Yields-bind (Yields-now host id _ o) λ t. Yields-given λ s.
          Yields-bind (Yields-save host id _ o (mark_held t) _ (mark_held-Advance host o t st)) λ x.
            Yields-weaken
              (dispatch-Yields (mark_held t o) refl idle
                (record { amount = willing.amount; reads = willing.reads; pays = willing.pays })
                ahead)
              (λ a w h. record {
                order = h.order;
                stands = h.stands;
                state = h.state;
                terms = ground (arith, h.terms);
              })))

  held_event-Yields :
      (o : Order) (ev : SwapLegEvent)
      → str_eq id "" ≡ false
      → ev.kind ≡ EventKind.incoming_held
      → ev.payment_hash ≡ o.payment_hash
      → o.state ≡ pending
      → o.outgoing.status ≡ waiting
      → Willing o
      → ((n : ℕ) → host.clock n + host.min_safety_delta_ms < o.incoming.tlc_expiry_at)
      → Yields (Stands id o Any) (on_leg_event host ev) (λ _. Sent o)
  unfolding handle
  held_event-Yields o ev named kind hash st idle willing ahead =
      Yields-event host id Any o ev named hash (rw kind (held-Yields o st idle willing ahead))

  settled_event-Yields :
      (o : Order) (ev : SwapLegEvent) (p : Hash256)
      → str_eq id "" ≡ false
      → ev.kind ≡ EventKind.outgoing_settled
      → ev.payment_hash ≡ o.payment_hash
      → ev.preimage ≡ some p
      → o.state ≡ outgoing_in_flight
      → matches host p o.payment_hash ≡ true
      → str_eq p "" ≡ false
      → ((n : ℕ) → (host.ports o.incoming.network).hold.settle n o.payment_hash p ≡ ok tt)
      → Yields (Stands id o Any) (on_leg_event host ev) (λ _. SwapDone o p)
  unfolding handle
  settled_event-Yields o ev p named kind hash carried st m full willing =
      Yields-event host id Any o ev named hash
        (rw (kind, carried) (settled-Yields o p st m full willing))

  -- The swap of a PENDING order completes: when the incoming payment is held, and then the outgoing
  -- payment reports a preimage that hashes to the order's payment hash, the order is SUCCEEDED with
  -- that preimage and its first terms, and the hub has claimed the incoming hold with it. It is
  -- assumed that the paying node accepts the payment, that the node of the hold accepts the
  -- settlement, and that the clock has not come to the safety window before the hold's expiry.
  pub swap_completes :
      (w : World) (o : Order) (held paid : SwapLegEvent) (p : Hash256)
      → IsValid w.store.index
      → Store.find id w.store ≡ some o
      → str_eq id "" ≡ false
      → o.state ≡ pending
      → o.outgoing.status ≡ waiting
      → held.kind ≡ EventKind.incoming_held
      → held.payment_hash ≡ o.payment_hash
      → paid.kind ≡ EventKind.outgoing_settled
      → paid.payment_hash ≡ o.payment_hash
      → paid.preimage ≡ some p
      → str_eq p "" ≡ false
      → matches host p o.payment_hash ≡ true
      → Willing o
      → ((n : ℕ) → (host.ports o.incoming.network).hold.settle n o.payment_hash p ≡ ok tt)
      → ((n : ℕ) → host.clock n + host.min_safety_delta_ms < o.incoming.tlc_expiry_at)
      → SwapDone o p (run_jobs host (leg_event held ∷ leg_event paid ∷ []) w)
  unfolding run_jobs run_job
  swap_completes w o held paid p v f named st idle hk hh pk ph pp full m willing claims ahead =
      let a : Sent o _ =
        ((held_event-Yields o held named hk hh st idle willing ahead).yields w
          (record { valid = v; at = f; so_far = tt })).after in
      let t : SameTerms o a.order = a.terms in
      let b : SwapDone a.order p _ =
        ((settled_event-Yields a.order paid p named pk (ph ∙ sym t.payment_hash) pp a.state
            (rw t.payment_hash m) full
            (λ n. rw (t.payment_hash, t.incoming_network) (claims n))).yields
          _ a.stands).after in
      record {
        order = b.order;
        stands = rw (← t.payment_hash, ← t.incoming_network) b.stands;
        state = b.state;
        proof = b.proof;
        terms = ground (arith, t, b.terms);
      }
