-- ===== src/Api/Legs/Plans.antt =====
-- What a plan of `planLegs` (bifrostd/src/api/legs.ts) can be.
use Prim.Native.String.{◌++◌ as append}
use bitfrost.Base.{
  ℕ, ◌≡◌, refl, String, Bool, true, false, not, Option, none, some, truthy, if◌then◌else◌,
}
use bitfrost.Sdk.Types.{Network, fiber, lightning, fiber_to_ln, ln_to_fiber, Hash256, plain_error}
use bitfrost.Orders.Ports.{Result, ok, err}
use bitfrost.Rfq.Fallible.{◌>>=◌}
use bitfrost.Api.Legs.{
  LegOptions, LegPlan, DecodedInvoice, fiber_to_lightning, lightning_to_fiber, by_networks,
  with_hash, same_network, plan_legs,
}

-- What the networks of the pair ask of a plan.
abbrev pub LegAmounts : LegOptions → LegPlan → Network → Network → Type 0
LegAmounts opts plan fiber lightning =
    (plan.direction ≡ fiber_to_ln)
    × (plan.incoming.network ≡ fiber)
    × (plan.outgoing.network ≡ lightning)
    × (plan.incoming.amount ≡ opts.give_amount)
    × (plan.outgoing.amount ≡ opts.get_amount)
LegAmounts opts plan lightning fiber =
    (plan.direction ≡ ln_to_fiber)
    × (plan.incoming.network ≡ lightning)
    × (plan.outgoing.network ≡ fiber)
    × (plan.incoming.amount ≡ opts.get_amount)
    × (plan.outgoing.amount ≡ opts.give_amount)
LegAmounts opts plan fiber fiber = ⊥
LegAmounts opts plan lightning lightning = ⊥

-- A plan for these networks, under this hash.
abbrev Planned : LegOptions → Hash256 → LegPlan → Network → Network → Type 0
Planned opts hash plan g t =
    LegAmounts opts plan g t
    × (plan.outgoing.invoice ≡ opts.target_invoice)
    × (plan.payment_hash ≡ hash)

by_networks-Planned :
    (opts : LegOptions) (hash : Hash256) (cltv : Result ℕ) (g t : Network) (plan : LegPlan)
    → by_networks opts hash cltv g t ≡ ok plan
    → Planned opts hash plan g t
unfolding ◌>>=◌ fiber_to_lightning lightning_to_fiber
by_networks-Planned opts hash (ok n) fiber lightning plan h =
    let same : fiber_to_lightning opts hash n ≡ plan = cc (h) in
    rw (← same) ((refl, refl, refl, refl, refl), refl, refl)
by_networks-Planned opts hash (err e) fiber lightning plan h = absurd (cc (h))
by_networks-Planned opts hash cltv lightning fiber plan h =
    let same : lightning_to_fiber opts hash ≡ plan = cc (h) in
    rw (← same) ((refl, refl, refl, refl, refl), refl, refl)
by_networks-Planned opts hash cltv fiber fiber plan h = absurd (cc (h))
by_networks-Planned opts hash cltv lightning lightning plan h = absurd (cc (h))

record PlanOf (opts : LegOptions) (found : Option String) (plan : LegPlan) : Type 0 where
  hash : String
  carried : found ≡ some hash
  planned : Planned opts (append "0x" hash) plan opts.give opts.gets

with_hash-PlanOf :
    (opts : LegOptions) (cltv : Result ℕ) (found : Option String) (plan : LegPlan)
    → with_hash opts cltv found ≡ ok plan
    → PlanOf opts found plan
with_hash-PlanOf opts cltv none plan h = absurd (cc (h))
with_hash-PlanOf opts cltv (some hash) plan h = record {
  hash = hash;
  carried = refl;
  planned = by_networks-Planned opts (append "0x" hash) cltv opts.give opts.gets plan h;
}

refused_or-PlanOf :
    (opts : LegOptions) (b : Bool) (cltv : Result ℕ) (found : Option String) (plan : LegPlan)
    → (if b then err plain_error else with_hash opts cltv found) ≡ ok plan
    → PlanOf opts found plan
refused_or-PlanOf opts true cltv found plan h = absurd (cc (h))
refused_or-PlanOf opts false cltv found plan h = with_hash-PlanOf opts cltv found plan h

-- A plan goes from the network that the client gives to the one that it gets, pays the target invoice,
-- and is keyed to the payment hash that the invoice carries. From Fiber to Lightning the hub takes in
-- the amount that the client gives and pays out the amount that the client gets; from Lightning to
-- Fiber the two amounts are exchanged: it takes in what the client should get, and pays out what the
-- client should give. No other pair of networks has a plan.
pub planned_amounts :
    (opts : LegOptions) (info : DecodedInvoice) (cltv : Result ℕ) (plan : LegPlan)
    → plan_legs opts info cltv ≡ ok plan
    → LegAmounts opts plan opts.give opts.gets
      × (plan.outgoing.invoice ≡ opts.target_invoice)
      × (hash : String) × (truthy info.payment_hash ≡ some hash)
      × (plan.payment_hash ≡ append "0x" hash)
unfolding plan_legs
planned_amounts opts info cltv plan h =
    let p =
      refused_or-PlanOf opts (not (same_network info.network opts.gets)) cltv
        (truthy info.payment_hash) plan h in
    let (amounts, invoice, keyed) = p.planned in (amounts, invoice, p.hash, p.carried, keyed)
