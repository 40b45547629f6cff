-- ===== src/Api/Legs.antt =====
-- `planLegs` (bifrostd/src/api/legs.ts): the direction and the expiries of an order's two legs. What
-- `detectInvoice` found and what the node decodes are arguments.
pub mod Plans
use Prim.Native.String.{◌++◌ as append}
use bitfrost.Base.{
  ℕ, ◌+◌, ◌*◌, ◌/◌, ◌≡◌, String, Bool, true, false, not, Option, none, some, truthy, max, arith,
  if◌then◌else◌,
}
use bitfrost.Base.Int.{ℤ}
use bitfrost.Sdk.Types.{
  Network, fiber, lightning, Direction, fiber_to_ln, ln_to_fiber, Hash256, plain_error,
}
use bitfrost.Sdk.Expiry.{
  outgoing_blocks_to_ms, incoming_blocks_to_ms, expiry_invariant_holds, at_ms,
}
use bitfrost.Orders.Ports.{Result, ok, err}
use bitfrost.Orders.Lifecycle.{IncomingPlan, OutgoingPlan}
use bitfrost.Rfq.Fallible.{◌>>=◌}

abbrev hour : ℕ
hour = 3_600_000

abbrev fiber_outgoing_delta_ms : ℕ
fiber_outgoing_delta_ms = 64_800_000

pub record DecodedInvoice : Type 0 where
  pub network : Network
  pub payment_hash : Option String

pub record LegPlan : Type 0 where
  pub direction : Direction
  pub payment_hash : Hash256
  pub incoming : IncomingPlan
  pub outgoing : OutgoingPlan

pub record LegOptions : Type 0 where
  pub give : Network
  pub gets : Network
  pub target_invoice : String
  pub give_amount : ℤ
  pub get_amount : ℤ
  pub now : ℕ
  pub min_safety_delta_ms : ℕ

-- FIBER_TO_LN, with the CLTV expiry of the target invoice.
unfoldable pub fiber_to_lightning : LegOptions → Hash256 → ℕ → LegPlan
fiber_to_lightning opts hash cltv =
    let out = outgoing_blocks_to_ms (cltv + 40) in
    let inc = max (16 * hour + hour) (out + opts.min_safety_delta_ms + 2 * hour) in
    record {
      direction = fiber_to_ln;
      payment_hash = hash;
      incoming = record {
        network = fiber;
        amount = opts.give_amount;
        tlc_expiry_at = opts.now + inc;
      };
      outgoing = record {
        network = lightning;
        invoice = opts.target_invoice;
        amount = opts.get_amount;
        tlc_expiry_at = opts.now + out;
      };
    }

-- `Math.ceil(ms / 300_000)`.
unfoldable pub ceil_blocks : ℕ → ℕ
ceil_blocks ms = (ms + 299_999) / 300_000

-- LN_TO_FIBER.
unfoldable pub lightning_to_fiber : LegOptions → Hash256 → LegPlan
unfolding ceil_blocks
lightning_to_fiber opts hash =
    let blocks = ceil_blocks (fiber_outgoing_delta_ms + opts.min_safety_delta_ms + 2 * hour) in
    let inc = incoming_blocks_to_ms blocks in
    record {
      direction = ln_to_fiber;
      payment_hash = hash;
      incoming = record {
        network = lightning;
        amount = opts.get_amount;
        tlc_expiry_at = opts.now + inc;
      };
      outgoing = record {
        network = fiber;
        invoice = opts.target_invoice;
        amount = opts.give_amount;
        tlc_expiry_at = opts.now + fiber_outgoing_delta_ms;
      };
    }

abbrev by_networks : LegOptions → Hash256 → Result ℕ → Network → Network → Result LegPlan
by_networks opts hash cltv fiber lightning = cltv >>= λ n. ok (fiber_to_lightning opts hash n)
by_networks opts hash cltv lightning fiber = ok (lightning_to_fiber opts hash)
by_networks opts hash cltv _ _ = err plain_error

unfoldable pub same_network : Network → Network → Bool
same_network fiber fiber = true
same_network lightning lightning = true
same_network _ _ = false

abbrev with_hash : LegOptions → Result ℕ → Option String → Result LegPlan
with_hash opts cltv none = err plain_error
with_hash opts cltv (some hash) = by_networks opts (append "0x" hash) cltv opts.give opts.gets

unfoldable pub plan_legs : LegOptions → DecodedInvoice → Result ℕ → Result LegPlan
unfolding same_network fiber_to_lightning lightning_to_fiber ◌>>=◌
plan_legs opts info cltv =
    if not (same_network info.network opts.gets)
    then err plain_error
    else with_hash opts cltv (truthy info.payment_hash)

abbrev pub Outlives : LegOptions → Result LegPlan → Type 0
Outlives opts (err e) = Unit
Outlives opts (ok plan) =
    expiry_invariant_holds (at_ms plan.incoming.tlc_expiry_at) (at_ms plan.outgoing.tlc_expiry_at)
      opts.min_safety_delta_ms opts.now
    ≡ some true

fiber_to_lightning-Outlives :
    (opts : LegOptions) (hash : Hash256) (n : ℕ)
    → Outlives opts (ok (fiber_to_lightning opts hash n))
unfolding fiber_to_lightning expiry_invariant_holds outgoing_blocks_to_ms
fiber_to_lightning-Outlives opts hash n = ground arith

lightning_to_fiber-Outlives :
    (opts : LegOptions) (hash : Hash256) → Outlives opts (ok (lightning_to_fiber opts hash))
unfolding lightning_to_fiber expiry_invariant_holds incoming_blocks_to_ms ceil_blocks
lightning_to_fiber-Outlives opts hash = ground arith

by_networks-Outlives :
    (opts : LegOptions) (hash : Hash256) (cltv : Result ℕ) (g t : Network)
    → Outlives opts (by_networks opts hash cltv g t)
unfolding ◌>>=◌
by_networks-Outlives opts hash (ok n) fiber lightning = fiber_to_lightning-Outlives opts hash n
by_networks-Outlives opts hash (err e) fiber lightning = tt
by_networks-Outlives opts hash cltv lightning fiber = lightning_to_fiber-Outlives opts hash
by_networks-Outlives opts hash cltv fiber fiber = tt
by_networks-Outlives opts hash cltv lightning lightning = tt

with_hash-Outlives :
    (opts : LegOptions) (cltv : Result ℕ) (hash : Option String)
    → Outlives opts (with_hash opts cltv hash)
with_hash-Outlives opts cltv none = tt
with_hash-Outlives opts cltv (some hash) = by_networks-Outlives opts _ cltv opts.give opts.gets

refused_or-Outlives :
    (opts : LegOptions) (b : Bool) (r : Result LegPlan)
    → Outlives opts r
    → Outlives opts (if b then err plain_error else r)
refused_or-Outlives opts true r h = tt
refused_or-Outlives opts false r h = h

-- A plan, in either direction, gives the incoming hold more time than the outgoing leg and the
-- safety delta, so the check that creates the order accepts it.
pub planned_legs_accepted :
    (opts : LegOptions) (info : DecodedInvoice) (cltv : Result ℕ)
    → Outlives opts (plan_legs opts info cltv)
unfolding plan_legs
planned_legs_accepted opts info cltv =
    refused_or-Outlives opts (not (same_network info.network opts.gets))
      (with_hash opts cltv (truthy info.payment_hash))
      (with_hash-Outlives opts cltv (truthy info.payment_hash))
