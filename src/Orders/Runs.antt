-- ===== src/Orders/Runs.antt =====
-- One rule for each way to build an action: what it runs through is steps of the protocol on one
-- order, and what it knows of the store afterwards.
use bitfrost.Base.{
  ℕ, ◌≡◌, refl, ◌∙◌, String, Bool, true, false, Option, none, some, arith, if◌then◌else◌,
  Option-cases, inl, inr,
}
use bitfrost.Base.Dict.{get-set_self}
use bitfrost.Sdk.Types.{Order, OrderState, Thrown}
use bitfrost.Orders.Store
use bitfrost.Orders.Store.{Store}
use bitfrost.Orders.Store.Keys.{IsValid}
use bitfrost.Orders.Ports.{Result, ok, err}
use bitfrost.Orders.World.{
  Host, World, Action, Request, Level, pure, throw, continue, try_catch, done, ◌>>=◌, now, log,
  handle_error, ask, get_order, find_order, transition, save, lift, or_throw,
}
use bitfrost.Orders.Protocol.{
  Advance, Licensed, quiet, write, call, Runs, here, next, Runs-trans, Runs-IsValid,
}

abbrev pub Always : Store → Type 0
Always s = Unit

abbrev pub Anything : {A : Type 0} → A → Store → Type 0
Anything a s = Unit

-- The store's record of the order.
abbrev pub At : String → Order → Store → Type 0
At id o s = Store.find id s ≡ some o

abbrev Post : {A : Type 0} → (A → Store → Type 0) → Result A → Store → Type 0
Post Q (ok a) s = Q a s
Post Q (err e) s = Unit

pub find-updated :
    (id : String) (from : OrderState) (new : Order) (detail : Option String) (s : Store)
    → new.order_id ≡ id
    → Store.find id (Store.updated id from new detail s) ≡ some new
unfolding Store.updated
find-updated id from new detail s e = rw (← e) (get-set_self new.order_id new s.orders)

module _ (host : Host) (id : String) where
  pub record Does {A : Type 0} (P : Store → Type 0) (m : Action A) (Q : A → Store → Type 0)
      : Type 0 where
    pub runs : (w : World) → IsValid w.store.index → P w.store → Runs host id w (m w).1
    pub ends : (w : World) → IsValid w.store.index → P w.store → Post Q (m w).0 (m w).1.store

  pub Does-pure : {A : Type 0} {P : Store → Type 0} (a : A) → Does P (pure a) (λ _. P)
  Does-pure a = record { runs = λ w v h. here; ends = λ w v h. h }

  pub Does-throw :
      {A : Type 0} {P : Store → Type 0} {Q : A → Store → Type 0} (e : Thrown) → Does P (throw e) Q
  Does-throw e = record { runs = λ w v h. here; ends = λ w v h. tt }

  pub Does-lift :
      {A : Type 0} {P : Store → Type 0} (a : Option A) (e : Thrown) → Does P (lift a e) (λ _. P)
  Does-lift none e = record { runs = λ w v h. here; ends = λ w v h. tt }
  Does-lift (some a) e = record { runs = λ w v h. here; ends = λ w v h. h }

  pub Does-now : {P : Store → Type 0} → Does P (now host) (λ _. P)
  unfolding now
  Does-now = record { runs = λ w v h. next here (quiet refl refl); ends = λ w v h. h }

  pub Does-log :
      {P : Store → Type 0} (level : Level) (order : String) → Does P (log level order) (λ _. P)
  unfolding log
  Does-log level order = record { runs = λ w v h. next here (quiet refl refl); ends = λ w v h. h }

  pub Does-weaken :
      {A : Type 0} {P : Store → Type 0} {m : Action A} {Q : A → Store → Type 0}
      → Does Always m Q
      → Does P m Q
  Does-weaken d = record { runs = λ w v h. d.runs w v tt; ends = λ w v h. d.ends w v tt }

  forget-Post :
      {A : Type 0} (Q : A → Store → Type 0) (r : Result A) (s : Store)
      → Post Q r s
      → Post Anything r s
  forget-Post Q (ok a) s h = tt
  forget-Post Q (err e) s h = tt

  pub Does-forget :
      {A : Type 0} {P : Store → Type 0} {m : Action A} {Q : A → Store → Type 0}
      → Does P m Q
      → Does P m Anything
  Does-forget d = record { runs = d.runs; ends = λ w v h. forget-Post _ _ _ (d.ends w v h) }

  pub Does-if :
      {A : Type 0} {P : Store → Type 0} {Q : A → Store → Type 0} (b : Bool) (m n : Action A)
      → (b ≡ true → Does P m Q)
      → (b ≡ false → Does P n Q)
      → Does P (if b then m else n) Q
  Does-if true m n dm dn = dm refl
  Does-if false m n dm dn = dn refl

  continue-Runs :
      {A B : Type 0} {Q : A → Store → Type 0} {R : B → Store → Type 0} (f : A → Action B)
      → ((a : A) → Does (Q a) (f a) R)
      → (r : Result A) (w : World) → IsValid w.store.index
      → Post Q r w.store
      → Runs host id w (continue r f w).1 × Post R (continue r f w).0 (continue r f w).1.store
  continue-Runs f df (ok a) w v h = ((df a).runs w v h, (df a).ends w v h)
  continue-Runs f df (err e) w v h = (here, tt)

  pub Does-bind :
      {A B : Type 0} {P : Store → Type 0} {Q : A → Store → Type 0} {R : B → Store → Type 0}
      {m : Action A} {f : A → Action B}
      → Does P m Q
      → ((a : A) → Does (Q a) (f a) R)
      → Does P (m >>= f) R
  unfolding ◌>>=◌
  Does-bind {f} dm df = record {
    runs = λ w v h.
        let r = dm.runs w v h in
        Runs-trans host r (continue-Runs f df _ _ (Runs-IsValid host v r) (dm.ends w v h)).0;
    ends =
        λ w v h. (continue-Runs f df _ _ (Runs-IsValid host v (dm.runs w v h)) (dm.ends w v h)).1;
  }

  caught-Runs :
      {A : Type 0} {Q : A → Store → Type 0} (k : Thrown → Action A)
      → ((e : Thrown) → Does Always (k e) Q)
      → (r : Result A) (w : World) → IsValid w.store.index
      → Post Q r w.store
      → Runs host id w (handle_error r k w).1
        × Post Q (handle_error r k w).0 (handle_error r k w).1.store
  caught-Runs k dk (ok a) w v h = (here, h)
  caught-Runs k dk (err e) w v h = ((dk e).runs w v tt, (dk e).ends w v tt)

  pub Does-catch :
      {A : Type 0} {P : Store → Type 0} {Q : A → Store → Type 0} {m : Action A}
      {k : Thrown → Action A}
      → Does P m Q
      → ((e : Thrown) → Does Always (k e) Q)
      → Does P (try_catch m k) Q
  unfolding try_catch
  Does-catch {k} dm dk = record {
    runs = λ w v h.
        let r = dm.runs w v h in
        Runs-trans host r (caught-Runs k dk _ _ (Runs-IsValid host v r) (dm.ends w v h)).0;
    ends = λ w v h. (caught-Runs k dk _ _ (Runs-IsValid host v (dm.runs w v h)) (dm.ends w v h)).1;
  }

  or_throw-Runs :
      (o : Option Order) (e : Thrown) (w : World)
      → Store.find id w.store ≡ o
      → Runs host id w (or_throw o e w).1
        × Post (λ o. At id o) (or_throw o e w).0 (or_throw o e w).1.store
  or_throw-Runs none e w h = (here, tt)
  or_throw-Runs (some o) e w h = (here, h)

  -- The order that is read is the one that is recorded.
  pub Does-get_order : {P : Store → Type 0} → Does P (get_order id) (λ o. At id o)
  unfolding get_order
  Does-get_order = record {
    runs = λ w v h. (or_throw-Runs _ _ w refl).0;
    ends = λ w v h. (or_throw-Runs _ _ w refl).1;
  }

  again_eq :
      {B : Type 0} (o : Order) (f : Order → Action B) (w : World)
      → At id o w.store
      → (get_order id >>= f) w ≡ f o w
  unfolding get_order ◌>>=◌
  again_eq o f w h = rw h refl

  -- Where the record is known, it is the order that is read.
  pub Does-again :
      {B : Type 0} {R : B → Store → Type 0} (o : Order) (f : Order → Action B)
      → Does (At id o) (f o) R
      → Does (At id o) (get_order id >>= f) R
  Does-again o f d = record {
    runs = λ w v h. rw (again_eq o f w h) (d.runs w v h);
    ends = λ w v h. rw (again_eq o f w h) (d.ends w v h);
  }

  pub Does-find_order : {P : Store → Type 0} (e : Thrown) → Does P (find_order id e) (λ o. At id o)
  unfolding find_order
  Does-find_order e = record {
    runs = λ w v h. (or_throw-Runs _ _ w refl).0;
    ends = λ w v h. (or_throw-Runs _ _ w refl).1;
  }

  still : {A : Type 0} (o : Order) (r : Result A) (s : Store) → At id o s → Post (λ _. At id o) r s
  still o (ok a) s h = h
  still o (err e) s h = tt

  -- A call that the recorded order permits.
  pub Does-ask :
      {A : Type 0} (o : Order) (r : Request) (answer : ℕ → Result A)
      → Licensed host o r
      → Does (At id o) (ask r answer) (λ _. At id o)
  unfolding ask
  Does-ask o r answer l = record {
    runs = λ w v h. next here (call o r h l refl refl);
    ends = λ w v h. still o (answer w.tick) w.store h;
  }

  pub transition_eq :
      (o : Order) (mutate : Order → Order) (detail : String) (w : World)
      → At id o w.store
      → transition id mutate detail w ≡ (
        ok (mutate o),
        record w { store = Store.updated id o.state (mutate o) (some detail) w.store },
      )
  unfolding transition Store.transition
  transition_eq o mutate detail w h = ground arith

  -- A transition that the protocol permits.
  pub Does-transition :
      (o : Order) (mutate : Order → Order) (detail : String)
      → Advance host o (mutate o)
      → Does (At id o) (transition id mutate detail) (λ _. At id (mutate o))
  Does-transition o mutate detail a = record {
    runs = λ w v h.
        rw (transition_eq o mutate detail w h)
          (next here (write o (mutate o) (some detail) h a refl refl));
    ends = λ w v h. rw (transition_eq o mutate detail w h) (
        find-updated id o.state (mutate o) (some detail) w.store
          (a.terms.order_id ∙ v.keyed id o h));
  }

  missing_eq :
      (mutate : Order → Order) (detail : String) (w : World)
      → Store.find id w.store ≡ none
      → (transition id mutate detail w).1 ≡ w
  unfolding transition Store.transition
  missing_eq mutate detail w h = ground arith

  ended : {A : Type 0} (r : Result A) (s : Store) → Post Anything r s
  ended (ok a) s = tt
  ended (err e) s = tt

  -- A transition that the protocol permits on every order, known or not.
  pub Does-rewrite :
      {P : Store → Type 0} (mutate : Order → Order) (detail : String)
      → ((o : Order) → Advance host o (mutate o))
      → Does P (transition id mutate detail) Anything
  Does-rewrite mutate detail a = record {
    runs = λ w v h. elim (Option-cases (Store.find id w.store)) [
      | inl e ↦ rw (missing_eq mutate detail w e) here
      | inr (o, e) ↦ (Does-transition o mutate detail (a o)).runs w v e
    ];
    ends = λ w v h. ended _ _;
  }

  pub Does-save :
      (o : Order) (mutate : Order → Order) (detail : String)
      → Advance host o (mutate o)
      → Does (At id o) (save id mutate detail) (λ _. At id (mutate o))
  unfolding save
  Does-save o mutate detail a = Does-bind (Does-transition o mutate detail a) (λ _. Does-pure tt)

  -- A recorded order is recorded under its own id.
  pub Does-keyed :
      {A : Type 0} {m : Action A} {Q : A → Store → Type 0} (o : Order)
      → (o.order_id ≡ id → Does (At id o) m Q)
      → Does (At id o) m Q
  Does-keyed o d = record {
    runs = λ w v h. (d (v.keyed id o h)).runs w v h;
    ends = λ w v h. (d (v.keyed id o h)).ends w v h;
  }

  pub Does-done : {P : Store → Type 0} → Does P done Anything
  Does-done = Does-forget (Does-pure tt)

  pub Does-report :
      {P : Store → Type 0} (level : Level) (order : String) → Does P (log level order) Anything
  Does-report level order = Does-forget (Does-log level order)
