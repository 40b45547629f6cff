-- ===== src/Orders/History/Forward.antt =====
-- How an order moves while the engine of bifrostd/src/orders/engine.ts runs.
use bitfrost.Base.{
  ◌≡◌, ◌≢◌, sym, ap, ◌∙◌, inl, inr, String, true, Option, none, some, List, arith, String-cases,
}
use bitfrost.Base.Dict.{get-set_self, get-set_ne}
use bitfrost.Sdk.Types.{Order, OrderState, is_terminal}
use bitfrost.Orders.Store
use bitfrost.Orders.Store.{Store}
use bitfrost.Orders.Store.Keys.{IsValid}
use bitfrost.Orders.World.{Host, World}
use bitfrost.Orders.Protocol.{Moves, Reissued, SameTerms, Advance, Step, quiet, write, call}
use bitfrost.Orders.History.{History, start, more, admit, History-IsValid}
use bitfrost.Orders.History.Jobs.{Job, run_jobs, run_jobs-History}

-- The states that come after one another, in any number of moves.
pub data Later (s : OrderState) : OrderState → Type 0 where
  same : Later s s
  further : {t u : OrderState} → Later s t → Moves t u → Later s u

-- The order as it stands later.
pub record Became (o : Order) (id : String) (s : Store) : Type 0 where
  pub order : Order
  pub recorded : Store.find id s ≡ some order
  pub terms : SameTerms o order
  pub path : Later o.state order.state
  pub final : is_terminal o.state ≡ true → Reissued o order

SameTerms-refl : (o : Order) → SameTerms o o
SameTerms-refl o = ground arith

pub SameTerms-trans : (o p q : Order) → SameTerms o p → SameTerms p q → SameTerms o q
SameTerms-trans o p q s t = ground arith

Reissued-refl : (o : Order) → Reissued o o
Reissued-refl o = ground arith

Reissued-trans : (o p q : Order) → Reissued o p → Reissued p q → Reissued o q
Reissued-trans o p q s t = ground arith

updated_self :
    (id : String) (from : OrderState) (o : Order) (detail : Option String) (s : Store)
    → o.order_id ≡ id
    → Store.find id (Store.updated id from o detail s) ≡ some o
unfolding Store.updated Store.with_order Store.push_event
updated_self id from o detail s e = rw (← e) (get-set_self o.order_id o s.orders)

pub updated_other :
    (id j : String) (from : OrderState) (o : Order) (detail : Option String) (s : Store)
    → o.order_id ≡ j
    → j ≢ id
    → Store.find id (Store.updated j from o detail s) ≡ Store.find id s
unfolding Store.updated Store.with_order Store.push_event
updated_other id j from o detail s e ne = get-set_ne o.order_id id o s.orders (λ q. ne (sym e ∙ q))

created_other :
    (id : String) (o p : Order) (s : Store)
    → Store.find o.order_id s ≡ none
    → Store.find id s ≡ some p
    → Store.find id (Store.created o s) ≡ some p
unfolding Store.created Store.with_order
created_other id o p s free f = get-set_ne o.order_id id o s.orders (λ q. cc) ∙ f

module _ (host : Host) where
  Became-written :
      (o : Order) (id : String) (s : Store)
      → IsValid s.index
      → Became o id s
      → (j : String) (p p' : Order) (detail : Option String) → Store.find j s ≡ some p
      → Advance host p p'
      → Became o id (Store.updated j p.state p' detail s)
  Became-written o id s i b j p p' detail f a =
      let named : p'.order_id ≡ j = a.terms.order_id ∙ i.keyed j p f in
      elim (String-cases j id) [
        | inr ne ↦ record {
          order = b.order;
          recorded = updated_other id j p.state p' detail s named ne ∙ b.recorded;
          terms = b.terms;
          path = b.path;
          final = b.final;
        }
        | inl here ↦
            let now : b.order ≡ p = cc (b.recorded) in
            record {
              order = p';
              recorded = rw (← here) (updated_self j p.state p' detail s named);
              terms = SameTerms-trans o p p' (rw (← now) b.terms) a.terms;
              path = further (rw (← now) b.path) a.move;
              final = λ t.
                  let kept : Reissued o p = rw (← now) (b.final t) in
                  Reissued-trans o p p' kept (a.final (ap is_terminal kept.state ∙ t));
            }
      ]

  Became-more :
      (o : Order) (id : String) {w v : World}
      → IsValid w.store.index
      → Became o id w.store
      → (j : String) → Step host j w v
      → Became o id v.store
  Became-more o id i b j (quiet e c) = rw e b
  Became-more o id i b j (call p r f l e c) = rw e b
  Became-more o id {w} i b j (write p p' detail f a e c) =
      rw e (Became-written o id w.store i b j p p' detail f a)

  pub became :
      (o : Order) (id : String) {w v : World}
      → IsValid w.store.index
      → Store.find id w.store ≡ some o
      → History host w v
      → Became o id v.store
  became o id i f start = record {
    order = o;
    recorded = f;
    terms = SameTerms-refl o;
    path = same;
    final = λ t. Reissued-refl o;
  }
  became o id i f (more j q s) = Became-more o id (History-IsValid host i q) (became o id i f q) j s
  became o id i f (admit {u} p q n e c) =
      let b = became o id i f q in
      rw e (record {
        order = b.order;
        recorded = created_other id p b.order u.store n.free_id b.recorded;
        terms = b.terms;
        path = b.path;
        final = b.final;
      })

  -- Whatever jobs run, from maps that agree: an order that is recorded stays recorded, with the
  -- terms it was created with. It moves only along the arrows of spec/PROTOCOL.md 4.4 and by failing
  -- without REFUNDING from INCOMING_HELD, OUTGOING_IN_FLIGHT or OUTGOING_SETTLED. Once it is
  -- SUCCEEDED or FAILED it keeps its state, its failure, its outgoing leg, and the status and the
  -- preimage of its incoming leg for good.
  pub orders_move_forward :
      (js : List Job) (w : World) (id : String) (o : Order)
      → IsValid w.store.index
      → Store.find id w.store ≡ some o
      → Became o id (run_jobs host js w).store
  orders_move_forward js w id o v f = became o id v f (run_jobs-History host js w v)
