-- ===== src/Api/Server/Ordering/Planned.antt =====
-- What an answer of POST /v1/orders means (bifrostd/src/api/server.ts, with quotes.ts, legs.ts and
-- orders/engine.ts).
use mathlib.Core.Path.{subst}
use bitfrost.Base.{
  ℕ, ◌≡◌, refl, List, ◌∙◌, ap, ◌<◌, String, Bool, true, false, not, Option, none, some, str_eq,
  truthy,
}
use bitfrost.Sdk.Types.{Order, pending, protocol_version}
use bitfrost.Sdk.Invoice.{Decoders}
use bitfrost.Orders.Store
use bitfrost.Orders.Store.Keys.{IsValid}
use bitfrost.Orders.History.Jobs.{Job, run_jobs}
use bitfrost.Orders.History.Forward.{Later}
use bitfrost.Orders.Ports.{Result, ok, err}
use bitfrost.Orders.World.{Host, World}
use bitfrost.Orders.Lifecycle.{new_order, create_order}
use bitfrost.Orders.Lifecycle.Creates.{Created, create_order-Created}
use bitfrost.Api.Quotes.{QuoteCache, CachedQuote, consume, redeemed_once}
use bitfrost.Api.Legs.{LegPlan}
use bitfrost.Api.Server.{Hub, Response, answer, caught, order_body}
use bitfrost.Api.Server.Ordering.{
  OrderCreate, plan_for, order_params, opened, with_plan, with_target, redeemed, with_id, target_of,
  handle_create_order,
}

module _ (host : Host) (d : Decoders) (cltv : Result ℕ) (now : ℕ) (js : List Job) (o : Order) where
  -- How an order came to be answered, from a quote that was redeemed.
  record Opened (q : CachedQuote) (c : QuoteCache) (r : Response × Hub) : Type 0 where
    target : String
    plan : LegPlan
    aimed : target_of q ≡ some target
    planned : plan_for d cltv host.min_safety_delta_ms now q target ≡ ok plan
    created : Created (order_params q plan) o r.1.world
    cached : r.1.cache ≡ c

  IsAnswer : Response × Hub → Type 0
  IsAnswer r = r.0 ≡ answer (order_body o)

  opened-Created :
      (q : CachedQuote) (plan : LegPlan) (hub : Hub) (r : Result Order × World)
      → IsValid hub.world.store.index
      → create_order host (run_jobs host js) (order_params q plan) hub.world ≡ r
      → IsAnswer (opened hub r)
      → Created (order_params q plan) o (opened hub r).1.world
        × ((opened hub r).1.cache ≡ hub.cache)
  unfolding IsAnswer caught
  opened-Created q plan hub (err e, w) v h a = absurd (cc (a))
  opened-Created q plan hub (ok p, w) v h a =
      let same : p ≡ o = cc (a) in
      (
        subst (λ x. Created (order_params q plan) o x.1) h
            (create_order-Created host js (order_params q plan) hub.world o v
              (ap (λ x. x.0) h ∙ ap ok same)),
        refl,
      )

  with_target-Opened :
      (q : CachedQuote) (hub : Hub) (target : Option String)
      → IsValid hub.world.store.index
      → target_of q ≡ target
      → IsAnswer (with_target host d cltv now js q hub target)
      → Opened q hub.cache (with_target host d cltv now js q hub target)
  unfolding IsAnswer caught
  with_target-Opened q hub none v h a = absurd (cc (a))
  with_target-Opened q hub (some target) v h a = go _ refl a
    where
      go :
          (p : Result LegPlan)
          → plan_for d cltv host.min_safety_delta_ms now q target ≡ p
          → IsAnswer (with_plan host js q hub p)
          → Opened q hub.cache (with_plan host js q hub p)
      go (err e) k b = absurd (cc (b))
      go (ok plan) k b =
          let (made, same) = opened-Created q plan hub _ v refl b in
          record {
            target = target;
            plan = plan;
            aimed = h;
            planned = k;
            created = made;
            cached = same;
          }

  -- What is true of an order that was answered for the quote `id`.
  pub record QuotedOrder (id : String) (before after : Hub) : Type 0 where
    pub quote : CachedQuote
    pub target : String
    pub redeemed : (consume id now before.cache).0 ≡ some quote
    pub fresh : now < quote.quote.expires_at
    pub aimed : target_of quote ≡ some target
    pub of_quote : o.quote_id ≡ quote.quote.quote_id
    pub pays :
        (plan : LegPlan) × (plan_for d cltv host.min_safety_delta_ms now quote target ≡ ok plan)
        × (o.payment_hash ≡ plan.payment_hash)
        × (o.outgoing.invoice ≡ plan.outgoing.invoice)
    pub path : Later pending o.state
    pub recorded : Store.find o.order_id after.world.store ≡ some o
    pub used_up : (later : ℕ) → (consume id later after.cache).0 ≡ none

  answered :
      (id : String) (hub : Hub) (q : CachedQuote) (r : Response × Hub)
      → (consume id now hub.cache).0 ≡ some q
      → Opened q (consume id now hub.cache).1 r
      → QuotedOrder id hub r.1
  unfolding new_order order_params
  answered id hub q r e w =
      let m = w.created in
      let once = λ (later : ℕ). redeemed_once id now later hub.cache q e in
      record {
        quote = q;
        target = w.target;
        redeemed = e;
        fresh = (once now).0;
        aimed = w.aimed;
        of_quote = m.terms.quote_id;
        pays = (w.plan, w.planned, m.terms.payment_hash, m.terms.outgoing_invoice);
        path = m.path;
        recorded = simp (m.terms.order_id) m.recorded;
        used_up = λ later. rw w.cached (once later).1;
      }

  redeemed-QuotedOrder :
      (id : String) (hub : Hub) (p : Option CachedQuote × QuoteCache)
      → IsValid hub.world.store.index
      → consume id now hub.cache ≡ p
      → IsAnswer (redeemed host d cltv now js hub p)
      → QuotedOrder id hub (redeemed host d cltv now js hub p).1
  unfolding IsAnswer
  redeemed-QuotedOrder id hub (none, c) v e a = absurd (cc (a))
  redeemed-QuotedOrder id hub (some q, c) v e a =
      answered id hub q (with_target host d cltv now js q (record hub { cache = c }) (target_of q))
        (ap (λ x. x.0) e) (rw e (with_target-Opened q (record hub { cache = c }) _ v refl a))

  with_id-QuotedOrder :
      (hub : Hub) (other : Bool) (id : Option String)
      → IsValid hub.world.store.index
      → IsAnswer (with_id host d cltv now js hub other id)
      → (i : String) × (id ≡ some i) × QuotedOrder i hub (with_id host d cltv now js hub other id).1
  unfolding IsAnswer
  with_id-QuotedOrder hub other none v a = absurd (cc (a))
  with_id-QuotedOrder hub true (some id) v a = absurd (cc (a))
  with_id-QuotedOrder hub false (some id) v a = (id, refl, redeemed-QuotedOrder id hub _ v refl a)

  -- An order that POST /v1/orders answers comes from a quote of the cache that had not expired and
  -- that is for PAY_INVOICE with a target invoice. It is recorded, it carries the quote's id, it has
  -- the payment hash and pays the invoice that were planned from the quote, and no later redemption of
  -- the same id finds the quote. Its state is one that a PENDING order can have moved to, whatever
  -- jobs came while the node was asked for the hold invoice. It is assumed that the maps of the store
  -- agree.
  pub answered_order_is_quoted :
      (body : OrderCreate) (hub : Hub)
      → IsValid hub.world.store.index
      → (handle_create_order host d cltv now js (some body) hub).0 ≡ answer (order_body o)
      → (id : String) × (truthy body.quote_id ≡ some id)
        × QuotedOrder id hub (handle_create_order host d cltv now js (some body) hub).1
  unfolding handle_create_order IsAnswer
  answered_order_is_quoted body hub =
      with_id-QuotedOrder hub (not (str_eq body.protocol protocol_version)) (truthy body.quote_id)
