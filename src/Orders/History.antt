-- ===== src/Orders/History.antt =====
-- The life of the engine over all its orders: transitions and calls of `Protocol` on any of them, and
-- the creation of orders (bifrostd/src/orders/engine.ts, store.ts).

pub mod Jobs
pub mod Good
pub mod Forward
use bitfrost.Base.{
  ℕ, ◌≡◌, refl, ap, ◌∙◌, String, Bool, true, false, Option, none, some, List, [], ◌∷◌,
  if◌then◌else◌,
}
use bitfrost.Sdk.Types.{Order, pending, waiting, Thrown}
use bitfrost.Base.Dict
use bitfrost.Orders.Store
use bitfrost.Orders.Store.{Store}
use bitfrost.Orders.Store.Keys.{IsValid, created-IsValid}
use bitfrost.Orders.Ports.{Result, ok, err}
use bitfrost.Orders.World.{Host, World, Action, pure, throw, continue, lift, ◌>>=◌, now}
use bitfrost.Orders.Protocol.{Step, quiet, Runs, here, next, Step-IsValid}
use bitfrost.Orders.Runs.{Does, Always, Anything}

-- What `createOrder` persists first.
pub record IsNew (o : Order) (s : Store) : Type 0 where
  pub starts : o.state ≡ pending
  pub not_sent : o.outgoing.status ≡ waiting
  pub not_failed : o.failure ≡ none
  pub free_id : Store.find o.order_id s ≡ none
  pub free_hash : Dict.get o.payment_hash s.by_hash ≡ none

module _ (host : Host) where
  pub data History (w : World) : World → Type 0 where
    start : History w w
    more : {u v : World} (id : String) → History w u → Step host id u v → History w v
    admit :
        {u v : World} (o : Order)
        → History w u
        → IsNew o u.store
        → v.store ≡ Store.created o u.store
        → v.calls ≡ u.calls
        → History w v

  pub History_trans : {w u v : World} → History w u → History u v → History w v
  History_trans p start = p
  History_trans p (more id q s) = more id (History_trans p q) s
  History_trans p (admit o q n e c) = admit o (History_trans p q) n e c

  pub Runs-History : (id : String) {w v : World} → Runs host id w v → History w v
  Runs-History id here = start
  Runs-History id (next r s) = more id (Runs-History id r) s

  pub History-IsValid : {w v : World} → IsValid w.store.index → History w v → IsValid v.store.index
  History-IsValid i start = i
  History-IsValid i (more id q s) = Step-IsValid host (History-IsValid i q) s
  History-IsValid i (admit {u} o q n e c) =
      rw e (created-IsValid o u.store (History-IsValid i q) n.free_id n.free_hash)

  -- An action that runs through a history.
  pub record Keeps {A : Type 0} (m : Action A) : Type 0 where
    pub keeps : (w : World) → IsValid w.store.index → History w (m w).1

  pub Keeps-pure : {A : Type 0} (a : A) → Keeps (pure a)
  Keeps-pure a = record { keeps = λ w v. start }

  pub Keeps-throw : {A : Type 0} (e : Thrown) → Keeps {A = A} (throw e)
  Keeps-throw e = record { keeps = λ w v. start }

  pub Keeps-lift : {A : Type 0} (a : Option A) (e : Thrown) → Keeps (lift a e)
  Keeps-lift none e = record { keeps = λ w v. start }
  Keeps-lift (some a) e = record { keeps = λ w v. start }

  pub Keeps-now : Keeps (now host)
  unfolding now
  Keeps-now = record { keeps = λ w v. more "" start (quiet refl refl) }

  pub Keeps-Does :
      {A : Type 0} {m : Action A} {Q : A → Store → Type 0} (id : String)
      → Does host id Always m Q
      → Keeps m
  Keeps-Does id d = record { keeps = λ w v. Runs-History id (d.runs w v tt) }

  pub Keeps-if :
      {A : Type 0} (b : Bool) (m n : Action A) → Keeps m → Keeps n → Keeps (if b then m else n)
  Keeps-if true m n km kn = km
  Keeps-if false m n km kn = kn

  continue-History :
      {A B : Type 0} (r : Result A) (f : A → Action B) (w : World)
      → IsValid w.store.index
      → ((a : A) → Keeps (f a))
      → History w (continue r f w).1
  continue-History (ok a) f w v k = (k a).keeps w v
  continue-History (err e) f w v k = start

  pub Keeps-bind :
      {A B : Type 0} {m : Action A} {f : A → Action B}
      → Keeps m
      → ((a : A) → Keeps (f a))
      → Keeps (m >>= f)
  unfolding ◌>>=◌
  Keeps-bind {m} {f} km kf = record {
    keeps = λ w v.
        let h = km.keeps w v in
        History_trans h (continue-History (m w).0 f (m w).1 (History-IsValid v h) kf);
  }
