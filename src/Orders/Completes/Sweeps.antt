-- ===== src/Orders/Completes/Sweeps.antt =====
-- What `sweepExpiries` (bifrostd/src/orders/engine.ts) does to an order, before and inside the safety
-- window.
use mathlib.Core.Path.{subst}
use bitfrost.Base.{
  ℕ, ◌+◌, ◌≡◌, ◌≢◌, refl, sym, ◌∙◌, inr, String, Bool, true, false, some, List, [], ◌∷◌, All, ltb,
  if◌then◌else◌,
}
use bitfrost.Sdk.Types.{Order}
use bitfrost.Orders.Store
use bitfrost.Orders.Store.Keys.{IsValid}
use bitfrost.Orders.Ports.{Result, ok, err}
use bitfrost.Orders.World.{Host, World, Action, Request, cancel, continue, done, ◌>>=◌}
use bitfrost.Orders.Protocol.{
  Step, quiet, write, call, Runs, here, next, Runs-IsValid, Step-IsValid,
}
use bitfrost.Orders.Runs.{Does, Does-if, Does-done, Always, Anything}
use bitfrost.Orders.Lifecycle.{sweep_job, sweep_each}
use bitfrost.Orders.Lifecycle.Refines.{sweep_job-Does}
use bitfrost.Orders.History.Forward.{updated_other}
use bitfrost.Orders.Completes.Swap.{Asked}
use bitfrost.Orders.Completes.Expires.{IsOpen, GivenUp, swept_leg, swept_reason, swept_job_unwinds}

module _ (host : Host) (id : String) where
  -- This order is left alone, and no call is forgotten.
  record Untouched (w v : World) : Type 0 where
    valid : IsValid v.store.index
    same : Store.find id v.store ≡ Store.find id w.store
    calls : (r : Request) → Asked r w.calls → Asked r v.calls

  Untouched-trans : (w u v : World) → Untouched w u → Untouched u v → Untouched w v
  Untouched-trans w u v a b = record {
    valid = b.valid;
    same = b.same ∙ a.same;
    calls = λ r h. b.calls r (a.calls r h);
  }

  Step-Untouched :
      (j : String) (w v : World) → j ≢ id → IsValid w.store.index → Step host j w v → Untouched w v
  Step-Untouched j w v ne i (quiet e c) = record {
    valid = rw e i;
    same = rw e refl;
    calls = λ r h. rw c h;
  }
  Step-Untouched j w v ne i (call o q f l e c) = record {
    valid = rw e i;
    same = rw e refl;
    calls = λ r h. rw c (inr h);
  }
  Step-Untouched j w v ne i (write o o' detail f a e c) = record {
    valid = let step : Step host j w v = write o o' detail f a e c in Step-IsValid host i step;
    same =
        rw e (updated_other id j o.state o' detail w.store (a.terms.order_id ∙ i.keyed j o f) ne);
    calls = λ r h. rw c h;
  }

  Runs-Untouched :
      (j : String) (w v : World) → j ≢ id → IsValid w.store.index → Runs host j w v → Untouched w v
  Runs-Untouched j w v ne i here = record { valid = i; same = refl; calls = λ r h. h }
  Runs-Untouched j w v ne i (next {u} q s) =
      Untouched-trans w u v (Runs-Untouched j w u ne i q)
        (Step-Untouched j u v ne (Runs-IsValid host i q) s)

  -- One round of the sweep.
  abbrev round : ℕ → Order → Action (Unit {0})
  round t o =
      if ltb (t + host.min_safety_delta_ms) o.incoming.tlc_expiry_at
      then done
      else sweep_job host o.order_id

  round-Does : (t : ℕ) (o : Order) → Does host o.order_id Always (round t o) Anything
  round-Does t o =
      Does-if host o.order_id (ltb (t + host.min_safety_delta_ms) o.incoming.tlc_expiry_at) _ _
        (λ early. Does-done host o.order_id) (λ late. sweep_job-Does host o.order_id)

  continue-Untouched :
      (r : Result (Unit {0})) (m : Action (Unit {0})) (w : World)
      → IsValid w.store.index
      → Untouched w (m w).1
      → Untouched w (continue r (λ _. m) w).1
  continue-Untouched (ok u) m w i k = k
  continue-Untouched (err e) m w i k = record { valid = i; same = refl; calls = λ r h. h }

  -- The sweep of other orders.
  others-Untouched :
      (t : ℕ) (others : List Order) (w : World)
      → All (λ p. p.order_id ≢ id) others
      → IsValid w.store.index
      → Untouched w (sweep_each host t others w).1
  unfolding sweep_each ◌>>=◌
  others-Untouched t [] w ne i = record { valid = i; same = refl; calls = λ r h. h }
  others-Untouched t (p ∷ ps) w (ne, nes) i =
      let k = Runs-Untouched p.order_id w _ ne i ((round-Does t p).runs w i tt) in
      Untouched-trans w _ _ k (
        continue-Untouched _ (sweep_each host t ps) _ k.valid (others-Untouched t ps _ nes k.valid))

  -- By whether there is still time: the order as it was, or given up.
  abbrev pub SweepResult : Order → Bool → World → Type 0
  SweepResult o true w = Store.find id w.store ≡ some o
  SweepResult o false w =
      GivenUp host id o (swept_leg o o.state) (swept_reason o o.state)
        (Asked (cancel o.incoming.network o.payment_hash)) w

  carry-SweepResult :
      (o : Order) (b : Bool) (w v : World) → Untouched w v → SweepResult o b w → SweepResult o b v
  carry-SweepResult o true w v k h = k.same ∙ h
  carry-SweepResult o false w v k h = record {
    order = h.order;
    stands = record {
      valid = k.valid;
      at = k.same ∙ h.stands.at;
      so_far = k.calls _ h.stands.so_far;
    };
    state = h.state;
    reason = h.reason;
    terms = h.terms;
    outgoing = h.outgoing;
  }

  continued-SweepResult :
      (o : Order) (b : Bool) (t : ℕ) (others : List Order) (r : Result (Unit {0})) (w : World)
      → All (λ p. p.order_id ≢ id) others
      → IsValid w.store.index
      → SweepResult o b w
      → SweepResult o b (continue r (λ _. sweep_each host t others) w).1
  continued-SweepResult o b t others r w ne i h =
      carry-SweepResult o b w _ (continue-Untouched r _ w i (others-Untouched t others w ne i)) h

  round-SweepResult :
      (o : Order) (b : Bool) (w : World)
      → Store.find id w.store ≡ some o
      → SweepResult o false (sweep_job host id w).1
      → o.order_id ≡ id
      → SweepResult o b ((if b then done else sweep_job host o.order_id) w).1
  round-SweepResult o true w f h e = f
  round-SweepResult o false w f h e =
      subst (λ x. SweepResult o false (sweep_job host x w).1) (sym e) h

  -- The expiry sweep at a time `t`, from the round of an open order on. Before the safety window the
  -- order is left as it was. From the time on at which `t` and the safety delta reach the expiry of
  -- its incoming leg, a PENDING order is FAILED after the sweep with QUOTE_EXPIRED, unless it carried
  -- a failure, and one that is INCOMING_HELD or OUTGOING_IN_FLIGHT is FAILED with
  -- EXPIRY_INVARIANT_VIOLATION; the cancellation of the hold has been asked for, and the terms are
  -- kept. It is assumed that the maps of the store agree, that the later rounds are of other orders,
  -- and that the node of the hold accepts the cancellation.
  pub swept_order_unwinds :
      (t : ℕ) (w : World) (o : Order) (others : List Order)
      → IsValid w.store.index
      → Store.find id w.store ≡ some o
      → IsOpen o.state
      → All (λ p. p.order_id ≢ id) others
      → ((n : ℕ) → (host.ports o.incoming.network).hold.cancel n o.payment_hash ≡ ok tt)
      → SweepResult o
          (ltb (t + host.min_safety_delta_ms) o.incoming.tlc_expiry_at)
          (sweep_each host t (o ∷ others) w).1
  unfolding sweep_each ◌>>=◌
  swept_order_unwinds t w o others v f st ne willing =
      let i = Runs-IsValid host v ((round-Does t o).runs w v tt) in
      continued-SweepResult o (ltb (t + host.min_safety_delta_ms) o.incoming.tlc_expiry_at) t others
        _ _ ne i
        (round-SweepResult o (ltb (t + host.min_safety_delta_ms) o.incoming.tlc_expiry_at) w f
          (swept_job_unwinds host id w o v f st willing) (v.keyed id o f))
