-- ===== src/Orders/History/Good.antt =====
-- What holds of every state of the engine (bifrostd/src/orders/engine.ts, store.ts), and of every
-- call that it makes of a node.
use bitfrost.Base.{
  ◌≡◌, ◌⊎◌, refl, sym, ◌∙◌, inl, inr, String, Option, none, some, List, All, arith, String-cases,
}
use bitfrost.Base.Dict
use bitfrost.Base.Dict.{get-set_self, get-set_ne}
use bitfrost.Sdk.Types.{Order, OrderState}
use bitfrost.Orders.Store
use bitfrost.Orders.Store.{Store, open_store, replay}
use bitfrost.Orders.Store.Keys.{IsValid, created-IsValid}
use bitfrost.Orders.Store.Recovery.{IsDurable, updated-IsDurable, created-IsDurable}
use bitfrost.Orders.World.{Host, World, Call}
use bitfrost.Orders.Protocol.{IsSound, Licensed, Step, quiet, write, call, Step-IsValid}
use bitfrost.Orders.History.{IsNew, History, start, more, admit, History-IsValid}
use bitfrost.Orders.History.Jobs.{Job, run_jobs, run_jobs-History}

-- The record of an order after a store operation on one order.
find_after :
    (id j : String) (o p : Order) (x : Dict.Dict Order)
    → Dict.get j (Dict.set id o x) ≡ some p
    → (p ≡ o) ⊎ (Dict.get j x ≡ some p)
find_after id j o p x h = elim (String-cases id j) [
  | inl e ↦ inl (cc (get-set_self id o x))
  | inr ne ↦ inr (sym (get-set_ne id j o x ne) ∙ h)
]

abbrev pub WhenSome : (Order → Type 0) → Option Order → Type 0
WhenSome P none = Unit
WhenSome P (some o) = P o

when_some :
    (P : Order → Type 0) (o : Option Order) → ((p : Order) → o ≡ some p → P p) → WhenSome P o
when_some P none h = tt
when_some P (some o) h = h o refl

module _ (host : Host) where
  -- The order in the file, as a restart would read it, that permits the call.
  pub record Justified (c : Call) : Type 0 where
    pub id : String
    pub order : Order
    pub on_file : Dict.get id (replay c.on_disk).orders ≡ some order
    pub licence : Licensed host order c.request

  pub record Good (w : World) : Type 0 where
    pub valid : IsValid w.store.index
    pub durable : IsDurable w.store
    pub sound : (id : String) (o : Order) → Store.find id w.store ≡ some o → IsSound host o
    pub justified : All Justified w.calls

  new-IsSound : (o : Order) (s : Store) → IsNew o s → IsSound host o
  new-IsSound o s n = record {
    undispatched = λ h. n.not_sent;
    dispatched = λ h. ground (arith, n.starts);
    paid = λ h. ground (arith, n.starts);
    claimed = λ h. ground (arith, n.starts);
    excused = λ h. ground (arith, n.starts);
    blameless = λ h. n.not_failed;
  }

  updated-IsSound :
      (id : String) (from : OrderState) (new : Order) (detail : Option String) (s : Store)
      → new.order_id ≡ id
      → IsSound host new
      → ((j : String) (p : Order) → Store.find j s ≡ some p → IsSound host p)
      → (j : String) (p : Order) → Store.find j (Store.updated id from new detail s) ≡ some p
      → IsSound host p
  unfolding Store.updated Store.with_order Store.push_event
  updated-IsSound id from new detail s e ok all j p h =
      elim (find_after new.order_id j new p s.orders h) [
        | inl same ↦ rw same ok
        | inr old ↦ all j p old
      ]

  created-IsSound :
      (o : Order) (s : Store)
      → IsSound host o
      → ((j : String) (p : Order) → Store.find j s ≡ some p → IsSound host p)
      → (j : String) (p : Order) → Store.find j (Store.created o s) ≡ some p
      → IsSound host p
  unfolding Store.created Store.with_order
  created-IsSound o s ok all j p h = elim (find_after o.order_id j o p s.orders h) [
    | inl same ↦ rw same ok
    | inr old ↦ all j p old
  ]

  call-Justified :
      (id : String) (w : World) (o : Order) (c : Call)
      → Good w
      → Store.find id w.store ≡ some o
      → c.on_disk ≡ w.store.file
      → Licensed host o c.request
      → Justified c
  call-Justified id w o c g f e l = record {
    id = id;
    order = o;
    on_file = rw (e, g.durable.replayed) f;
    licence = l;
  }

  Step-Good : {id : String} {w v : World} → Good w → Step host id w v → Good v
  Step-Good {v} g (quiet e c) = record {
    valid = rw e g.valid;
    durable = rw e g.durable;
    sound = rw e g.sound;
    justified = rw c g.justified;
  }
  Step-Good {id} {w} {v} g (call o r f l e c) = record {
    valid = rw e g.valid;
    durable = rw e g.durable;
    sound = rw e g.sound;
    justified = rw c (call-Justified id w o _ g f refl l, g.justified);
  }
  Step-Good {id} {w} {v} g (write o o' detail f a e c) =
      let same : o'.order_id ≡ id = a.terms.order_id ∙ g.valid.keyed id o f in
      let step : Step host id w v = write o o' detail f a e c in
      record {
        valid = Step-IsValid host g.valid step;
        durable = rw e (updated-IsDurable id o.state o' detail w.store same g.durable);
        sound =
            rw e (
              updated-IsSound id o.state o' detail w.store same (a.sound (g.sound id o f)) g.sound);
        justified = rw c g.justified;
      }

  pub History-Good : {w v : World} → Good w → History host w v → Good v
  History-Good g start = g
  History-Good g (more id q s) = Step-Good (History-Good g q) s
  History-Good g (admit {u} o q n e c) =
      let h = History-Good g q in
      record {
        valid = rw e (created-IsValid o u.store h.valid n.free_id n.free_hash);
        durable =
            rw e (created-IsDurable o u.store (h.valid.logged o.order_id n.free_id) h.durable);
        sound = rw e (created-IsSound o u.store (new-IsSound o u.store n) h.sound);
        justified = rw c h.justified;
      }

  run_jobs-Good : (js : List Job) (w : World) → Good w → Good (run_jobs host js w)
  run_jobs-Good js w g = History-Good g (run_jobs-History host js w g.valid)

  -- From a good state (the maps agree, the file replays to them, the orders are sound, and the
  -- calls so far are justified), every call that the engine makes, whatever jobs run and whatever
  -- the nodes answer, is permitted by an order that is in the file when the call is made: the hold
  -- is settled only with a preimage that hashes to its payment hash and that is recorded with
  -- OUTGOING_SETTLED, an outgoing leg is paid only once OUTGOING_IN_FLIGHT is recorded, and a hold
  -- is cancelled only once REFUNDING or FAILED is recorded.
  pub calls-Justified :
      (js : List Job) (w : World) → Good w → All Justified (run_jobs host js w).calls
  calls-Justified js w g = (run_jobs-Good js w g).justified

  -- From a good state, every recorded order stays sound, whatever jobs run: an order that is
  -- OUTGOING_SETTLED or SUCCEEDED carries a preimage that hashes to its payment hash, a SUCCEEDED
  -- order claimed the incoming leg with it, an order before dispatch has an untouched outgoing leg,
  -- and exactly the orders that are REFUNDING or FAILED carry a failure.
  pub orders-IsSound :
      (js : List Job) (w : World) (id : String)
      → Good w
      → WhenSome (IsSound host) (Store.find id (run_jobs host js w).store)
  orders-IsSound js w id g = when_some (IsSound host) _ (λ o. (run_jobs-Good js w g).sound id o)

  -- From a good state, a restart after any jobs reads back from the file exactly the orders, hashes
  -- and histories that were in memory.
  pub restart_forgets_nothing :
      (js : List Job) (w : World)
      → Good w
      → (open_store (run_jobs host js w).store.file).index ≡ (run_jobs host js w).store.index
  unfolding open_store
  restart_forgets_nothing js w g = (run_jobs-Good js w g).durable.replayed

  -- The maps of the store agree after any jobs if they agreed before: an order stands under its own
  -- id, its payment hash leads to it, a known hash leads to an order that has it (so that no two
  -- orders have one hash), and only known ids have a history.
  pub maps_agree :
      (js : List Job) (w : World) → IsValid w.store.index → IsValid (run_jobs host js w).store.index
  maps_agree js w v = History-IsValid host v (run_jobs-History host js w v)
