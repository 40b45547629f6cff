-- ===== src/Orders/Lifecycle/Creates.antt =====
-- What `createOrder` (bifrostd/src/orders/engine.ts) returns, when it returns.
use bitfrost.Base.{
  ℕ, ◌≡◌, refl, ◌∙◌, List, String, Bool, true, false, not, Option, none, some, arith, Option-cases,
  inl, inr, if◌then◌else◌,
}
use bitfrost.Base.Dict.{get-set_self}
use bitfrost.Sdk.Types.{Order, Thrown, pending}
use bitfrost.Orders.Store
use bitfrost.Orders.Store.{Store}
use bitfrost.Orders.Store.Keys.{IsValid, create_inv}
use bitfrost.Orders.Ports.{Result, ok, err}
use bitfrost.Orders.Preimage.{is_hash256}
use bitfrost.Orders.Marks.{mark_invoice}
use bitfrost.Orders.World.{
  Host, World, Action, throw, continue, lift, ◌>>=◌, now, ask, transition, create,
}
use bitfrost.Orders.Runs.{At, find-updated, transition_eq}
use bitfrost.Orders.Lifecycle.{
  CreateOrderParams, new_order, open_hold, admit_order, request_order, issue_invoice, create_order,
}
use bitfrost.Orders.Protocol.{SameTerms}
use bitfrost.Orders.Engine.Advances.{mark_invoice-Advance}
use bitfrost.Orders.History.{History-IsValid}
use bitfrost.Orders.History.Jobs.{Job, run_jobs, run_jobs-History, request_order-Keeps}
use bitfrost.Orders.History.Forward.{Later, Became, became, SameTerms-trans}

module _ {A B : Type 0} where
  -- How a step that returned came to return.
  record Passed (m : Action A) (f : A → Action B) (w : World) (b : B) : Type 0 where
    value : A
    first : (m w).0 ≡ ok value
    then_ : (f value (m w).1).0 ≡ ok b
    world : ((m >>= f) w).1 ≡ (f value (m w).1).1

  bind_inv :
      (m : Action A) (f : A → Action B) (w : World) (b : B)
      → ((m >>= f) w).0 ≡ ok b
      → Passed m f w b
  unfolding ◌>>=◌
  bind_inv m f w b h = go (m w).0 refl h
    where
      go : (r : Result A) → (m w).0 ≡ r → (continue r f (m w).1).0 ≡ ok b → Passed m f w b
      go (ok a) e k = record { value = a; first = e; then_ = k; world = rw e refl }
      go (err x) e k = absurd (cc (k))

create_ok :
    (o : Order) (w : World) (u : Unit {0})
    → (create o w).0 ≡ ok u
    → (create o w).1.store ≡ Store.created o w.store
unfolding create
create_ok o w u h = elim (Option-cases (Store.create o w.store)) [
  | inl e ↦ absurd (ground (arith, e, h))
  | inr (s, e) ↦ let (free, new, same) = create_inv o w.store e in rw e same
]

-- What the first part of `createOrder` leaves: the order is recorded under the id that it returns.
record Requested (p : CreateOrderParams) (id : String) (w : World) : Type 0 where
  created_at : ℕ
  recorded : At id (new_order p id created_at) w.store

-- An order that was created, as it is recorded when `createOrder` returns.
pub record Created (p : CreateOrderParams) (o : Order) (w : World) : Type 0 where
  pub id : String
  pub created_at : ℕ
  pub terms : SameTerms (new_order p id created_at) o
  pub path : Later pending o.state
  pub recorded : Store.find id w.store ≡ some o

module _ (host : Host) where
  admit_order-Requested :
      (p : CreateOrderParams) (id : String) (t : ℕ) (w : World) (asked : String × String)
      → (admit_order host p id t w).0 ≡ ok asked
      → Requested p (asked.0) (admit_order host p id t w).1
  unfolding admit_order new_order open_hold ask Store.created Store.with_order
  admit_order-Requested p id t w asked h =
      let a = bind_inv (create (new_order p id t)) _ w asked h in
      let s = create_ok (new_order p id t) w a.value a.first in
      let b = bind_inv (open_hold host p id t) _ _ asked a.then_ in
      let same : id ≡ asked.0 = cc (b.then_) in
      rw (← same, a.world, b.world)
        (record {
          created_at = t;
          recorded = rw s (get-set_self id (new_order p id t) w.store.orders);
        })

  unless :
      (b : Bool) (e : Thrown) (m : Action (String × String)) (p : CreateOrderParams) (w : World)
      (o : String × String)
      → ((m w).0 ≡ ok o → Requested p (o.0) (m w).1)
      → ((if b then throw e else m) w).0 ≡ ok o
      → Requested p (o.0) ((if b then throw e else m) w).1
  unless true e m p w o f h = absurd (cc (h))
  unless false e m p w o f h = f h

  lift_same : (x : Option Bool) (e : Thrown) (w : World) → (lift x e w).1 ≡ w
  lift_same none e w = refl
  lift_same (some b) e w = refl

  request_order-Requested :
      (p : CreateOrderParams) (w : World) (o : String × String)
      → (request_order host p w).0 ≡ ok o
      → Requested p (o.0) (request_order host p w).1
  unfolding request_order
  request_order-Requested p w o = unless (not w.ready) _ _ p w o (
      unless (not (is_hash256 p.payment_hash)) _ _ p w o (λ h.
        let a = bind_inv (now host) _ w o h in
        let b = bind_inv (lift _ _) _ _ o a.then_ in
        rw (a.world, b.world)
          (unless (not b.value) _ _ p _ o (admit_order-Requested p _ _ _ o) b.then_)))

  -- The order that is there when the invoice comes is the one that was created, moved on.
  invoiced :
      (p : CreateOrderParams) (id : String) (t u : ℕ) (invoice : String) (w : World) (o : Order)
      → IsValid w.store.index
      → Became (new_order p id t) id w.store
      → (transition id (mark_invoice invoice u) "incoming hold invoice issued" w).0 ≡ ok o
      → Created p o (transition id (mark_invoice invoice u) "incoming hold invoice issued" w).1
  unfolding new_order mark_invoice
  invoiced p id t u invoice w o v b h =
      let e =
        transition_eq host id b.order (mark_invoice invoice u) "incoming hold invoice issued" w
          b.recorded in
      let same : mark_invoice invoice u b.order ≡ o = cc (h, e) in
      let a = mark_invoice-Advance host b.order u invoice in
      record {
        id = id;
        created_at = t;
        terms = rw (← same) (SameTerms-trans _ b.order _ b.terms a.terms);
        path = rw (← same) b.path;
        recorded =
            rw (e, ← same)
              (find-updated id _ (mark_invoice invoice u b.order) _ w.store
                (a.terms.order_id ∙ v.keyed id b.order b.recorded));
      }

  issued-Created :
      (js : List Job) (p : CreateOrderParams) (id invoice : String) (w : World) (o : Order)
      → IsValid w.store.index
      → Requested p id w
      → (issue_invoice host id invoice (run_jobs host js w)).0 ≡ ok o
      → Created p o (issue_invoice host id invoice (run_jobs host js w)).1
  unfolding issue_invoice now
  issued-Created js p id invoice w o v r h =
      let x = run_jobs-History host js w v in
      let b = became host (new_order p id r.created_at) id v r.recorded x in
      let c = bind_inv (now host) _ (run_jobs host js w) o h in
      rw c.world (invoiced p id r.created_at _ invoice _ o (History-IsValid host v x) b c.then_)

  -- An order that `createOrder` returns is the one that was asked for, moved on by whatever came
  -- while the node was asked, and it is recorded.
  pub create_order-Created :
      (js : List Job) (p : CreateOrderParams) (w : World) (o : Order)
      → IsValid w.store.index
      → (create_order host (run_jobs host js) p w).0 ≡ ok o
      → Created p o (create_order host (run_jobs host js) p w).1
  unfolding create_order
  create_order-Created js p w o v h =
      let a = bind_inv (request_order host p) _ w o h in
      let asked = a.value in
      rw a.world (
        issued-Created js p (asked.0) (asked.1) _ o
          (History-IsValid host v ((request_order-Keeps host p).keeps w v))
          (request_order-Requested p w asked a.first) a.then_)
