-- ===== src/Orders/Completes.antt =====
-- Rules for what the actions of bifrostd/src/orders/engine.ts are sure to reach: an action returns,
-- and this holds then. The rules follow one order through its record.
pub mod Swap
pub mod Expires
pub mod Sweeps
use bitfrost.Base.{
  ℕ, ◌≡◌, refl, ◌∙◌, String, Bool, true, false, Option, none, some, List, ◌∷◌, arith, ap,
  if◌then◌else◌, str_eq, truthy,
}
use bitfrost.Sdk.Types.{Order, Thrown}
use bitfrost.Orders.Store
use bitfrost.Orders.Store.Keys.{IsValid}
use bitfrost.Orders.Ports.{Result, ok, err, SwapLegEvent}
use bitfrost.Orders.World.{
  Host, World, Action, Request, Call, Level, pure, continue, try_catch, handle_error, done, ◌>>=◌,
  now, log, ask, get_order, save, lift, find_by_hash,
}
use bitfrost.Orders.Protocol.{Advance, quiet, write, Step-IsValid}
use bitfrost.Orders.Runs.{At, find-updated, transition_eq}
use bitfrost.Orders.Engine.{handle}
use bitfrost.Orders.Lifecycle.{handle_found, on_leg_event}

pub record Reaches {A : Type 0} (Q : A → World → Type 0) (r : Result A × World) : Type 0 where
  pub value : A
  pub returned : r.0 ≡ ok value
  pub after : Q value r.1

pub record Yields {A : Type 0} (P : World → Type 0) (m : Action A) (Q : A → World → Type 0)
    : Type 0 where
  pub yields : (w : World) → P w → Reaches Q (m w)

-- The order that is recorded, and something about the calls that were made.
pub record Stands (id : String) (o : Order) (F : List Call → Type 0) (w : World) : Type 0 where
  pub valid : IsValid w.store.index
  pub at : At id o w.store
  pub so_far : F w.calls

abbrev pub Afterwards : {A : Type 0} → (World → Type 0) → A → World → Type 0
Afterwards P a = P

-- A time that the clock shows.
pub record Shown (host : Host) (t : ℕ) : Type 0 where
  pub tick : ℕ
  pub shows : t ≡ host.clock tick

module _ {A : Type 0} {P : World → Type 0} where
  pub Yields-pure : (a : A) → Yields P (pure a) (λ b w. (b ≡ a) × P w)
  Yields-pure a = record {
    yields = λ w h. record { value = a; returned = refl; after = (refl, h) };
  }

  pub Yields-lift :
      (o : Option A) (e : Thrown) (a : A) → o ≡ some a → Yields P (lift o e) (λ b w. (b ≡ a) × P w)
  Yields-lift o e a h = record {
    yields = λ w p. rw h (record { value = a; returned = refl; after = (refl, p) });
  }

  pub Yields-if :
      {Q : A → World → Type 0} (b : Bool) (m n : Action A)
      → (b ≡ true → Yields P m Q)
      → (b ≡ false → Yields P n Q)
      → Yields P (if b then m else n) Q
  Yields-if true m n dm dn = dm refl
  Yields-if false m n dm dn = dn refl

  pub Yields-weaken :
      {Q R : A → World → Type 0} {m : Action A}
      → Yields P m Q
      → ((a : A) (w : World) → Q a w → R a w)
      → Yields P m R
  Yields-weaken d f = record {
    yields = λ w h.
        let r = d.yields w h in
        record { value = r.value; returned = r.returned; after = f r.value _ r.after };
  }

-- Something that is known beside the state, or picked by it.
pub Yields-given :
    {A H : Type 0} {P : H → World → Type 0} {m : Action A} {Q : A → World → Type 0}
    → ((h : H) → Yields (P h) m Q)
    → Yields (λ w. (h : H) × P h w) m Q
Yields-given d = record { yields = λ w p. (d p.0).yields w p.1 }

continue-Reaches :
    {A B : Type 0} {Q : A → World → Type 0} {R : B → World → Type 0} (f : A → Action B)
    → ((a : A) → Yields (Q a) (f a) R)
    → (r : Result A) (w : World) (a : A) → r ≡ ok a
    → Q a w
    → Reaches R (continue r f w)
continue-Reaches f d r w a e q = rw e ((d a).yields w q)

pub Yields-bind :
    {A B : Type 0} {P : World → Type 0} {Q : A → World → Type 0} {R : B → World → Type 0}
    {m : Action A} {f : A → Action B}
    → Yields P m Q
    → ((a : A) → Yields (Q a) (f a) R)
    → Yields P (m >>= f) R
unfolding ◌>>=◌
Yields-bind {f} dm df = record {
  yields = λ w h. let r = dm.yields w h in continue-Reaches f df _ _ r.value r.returned r.after;
}

caught-Reaches :
    {A : Type 0} {Q : A → World → Type 0} (k : Thrown → Action A) (r : Result A) (w : World) (a : A)
    → r ≡ ok a
    → Q a w
    → Reaches Q (handle_error r k w)
caught-Reaches k r w a e q = rw e (record { value = a; returned = refl; after = q })

pub Yields-catch :
    {A : Type 0} {P : World → Type 0} {Q : A → World → Type 0} {m : Action A}
    (k : Thrown → Action A)
    → Yields P m Q
    → Yields P (try_catch m k) Q
unfolding try_catch
Yields-catch k d = record {
  yields = λ w h. let r = d.yields w h in caught-Reaches k _ _ r.value r.returned r.after;
}

module _ (host : Host) (id : String) (F : List Call → Type 0) where
  pub Yields-now :
      (o : Order) → Yields (Stands id o F) (now host) (λ t w. Shown host t × Stands id o F w)
  unfolding now
  Yields-now o = record {
    yields = λ w h. record {
      value = host.clock w.tick;
      returned = refl;
      after = (
        record { tick = w.tick; shows = refl },
        record { valid = h.valid; at = h.at; so_far = h.so_far },
      );
    };
  }

  pub Yields-log :
      (o : Order) (level : Level) (about : String)
      → Yields (Stands id o F) (log level about) (Afterwards (Stands id o F))
  unfolding log
  Yields-log o level about = record {
    yields = λ w h. record {
      value = tt;
      returned = refl;
      after = record { valid = h.valid; at = h.at; so_far = h.so_far };
    };
  }

  -- A recorded order is recorded under its own id.
  pub Yields-keyed :
      {A : Type 0} {m : Action A} {Q : A → World → Type 0} (o : Order)
      → (o.order_id ≡ id → Yields (Stands id o F) m Q)
      → Yields (Stands id o F) m Q
  Yields-keyed o d = record { yields = λ w h. (d (h.valid.keyed id o h.at)).yields w h }

  got_eq :
      {B : Type 0} (o : Order) (f : Order → Action B) (w : World)
      → At id o w.store
      → (get_order id >>= f) w ≡ f o w
  unfolding get_order ◌>>=◌
  got_eq o f w h = rw h refl

  -- The order that is read is the one that is recorded.
  pub Yields-get :
      {B : Type 0} {Q : B → World → Type 0} (o : Order) (f : Order → Action B)
      → Yields (Stands id o F) (f o) Q
      → Yields (Stands id o F) (get_order id >>= f) Q
  Yields-get o f d = record { yields = λ w h. rw (got_eq o f w h.at) (d.yields w h) }

  pub Yields-ask :
      {A : Type 0} (G : List Call → Type 0) (o : Order) (r : Request) (answer : ℕ → Result A)
      (a : A)
      → ((n : ℕ) → answer n ≡ ok a)
      → ((c : Call) (cs : List Call) → c.request ≡ r → F cs → G (c ∷ cs))
      → Yields (Stands id o F) (ask r answer) (λ b w. (b ≡ a) × Stands id o G w)
  unfolding ask
  Yields-ask G o r answer a willing grows = record {
    yields = λ w h. record {
      value = a;
      returned = willing w.tick;
      after = (refl, record { valid = h.valid; at = h.at; so_far = grows _ w.calls refl h.so_far });
    };
  }

  saved_eq :
      (o : Order) (mutate : Order → Order) (detail : String) (w : World)
      → At id o w.store
      → save id mutate detail w
        ≡ (ok tt, record w { store = Store.updated id o.state (mutate o) (some detail) w.store })
  unfolding save ◌>>=◌
  saved_eq o mutate detail w h = rw (transition_eq host id o mutate detail w h) refl

  pub Yields-save :
      (o : Order) (mutate : Order → Order) (detail : String)
      → Advance host o (mutate o)
      → Yields (Stands id o F) (save id mutate detail) (Afterwards (Stands id (mutate o) F))
  Yields-save o mutate detail a = record {
    yields = λ w h. rw (saved_eq o mutate detail w h.at) (record {
      value = tt;
      returned = refl;
      after = record {
        valid =
            Step-IsValid host {w = w}
              {w' = record w { store = Store.updated id o.state (mutate o) (some detail) w.store }}
              h.valid (write o (mutate o) (some detail) h.at a refl refl);
        at =
            find-updated id o.state (mutate o) (some detail) w.store
              (a.terms.order_id ∙ h.valid.keyed id o h.at);
        so_far = h.so_far;
      };
    });
  }

  -- An event reaches the order of its payment hash.
  known_hash :
      (o : Order) (ev : SwapLegEvent) (w : World)
      → Stands id o F w
      → str_eq id "" ≡ false
      → ev.payment_hash ≡ o.payment_hash
      → Store.get_by_hash ev.payment_hash w.store ≡ some o
  unfolding Store.get_by_hash
  known_hash o ev w h full e = rw (e, h.valid.hashed id o h.at, full, h.at) refl

  pub Yields-event :
      {Q : Unit {0} → World → Type 0} (o : Order) (ev : SwapLegEvent)
      → str_eq id "" ≡ false
      → ev.payment_hash ≡ o.payment_hash
      → Yields (Stands id o F) (handle host id ev) Q
      → Yields (Stands id o F) (on_leg_event host ev) Q
  unfolding on_leg_event handle_found find_by_hash ◌>>=◌
  Yields-event o ev full e d = record {
    yields = λ w h. rw (known_hash o ev w h full e, h.valid.keyed id o h.at) (d.yields w h);
  }
