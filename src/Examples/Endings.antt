-- ===== src/Examples/Endings.antt =====
-- The theorems on how orders end, applied to concrete inputs (bifrostd/src/orders/engine.ts).
use bitfrost.Base.{◌≡◌, refl, ltb, ◌+◌, true, false, some, [], ◌∷◌, arith, inl, str_eq}
use bitfrost.Base.Int.{pos}
use bitfrost.Base.Decimal.{big_int, to_string, int_to_string}
use bitfrost.Sdk.Types.{pending, waiting, internal}
use bitfrost.Orders.Store.Keys.{IsValid, no_orders-IsValid}
use bitfrost.Orders.World.{Host, cancel}
use bitfrost.Orders.Engine.{matches}
use bitfrost.Orders.Preimage.{hex_preimage_matches, from_hex, to_hex}
use bitfrost.Orders.Lifecycle.{new_order, sweep_each}
use bitfrost.Orders.Store.{open_store, replay}
use bitfrost.Orders.History.{History}
use bitfrost.Orders.History.Good.{maps_agree}
use bitfrost.Orders.History.Jobs.{run_jobs-History, run_jobs, run_job, leg_event, queued_cancel}
use bitfrost.Orders.Reasons.{failure}
use bitfrost.Orders.Completes.Swap.{Asked, SwapDone, swap_completes}
use bitfrost.Orders.Completes.Sweeps.{SweepResult, swept_order_unwinds}
use bitfrost.Orders.Completes.Expires.{GivenUp, late_cancel_fails}
use bitfrost.Examples.Swap.{
  demo_host, demo_order, demo_world, held_event, settled_event, zero_hash, empty_world, demo_jobs,
}
use bitfrost.Examples.Theorems.{demo-IsValid, demo-found}

-- A host whose clock stands still.
abbrev calm_host : Host
calm_host = record demo_host { clock = λ n. 7 }

demo-pending : demo_order.state ≡ pending
unfolding demo_order new_order
demo-pending = refl

demo-waiting : demo_order.outgoing.status ≡ waiting
unfolding demo_order new_order
demo-waiting = refl

demo-hash : zero_hash ≡ demo_order.payment_hash
unfolding demo_order new_order
demo-hash = refl

demo-reads : big_int demo_order.outgoing.amount ≡ some (pos 100)
unfolding demo_order new_order big_int to_string int_to_string
demo-reads = refl

named : str_eq "order-1" "" ≡ false
unfolding str_eq
named = refl

full : str_eq zero_hash "" ≡ false
unfolding str_eq
full = refl

demo-matches : matches calm_host zero_hash demo_order.payment_hash ≡ true
unfolding demo_order new_order matches hex_preimage_matches from_hex to_hex str_eq
demo-matches = refl

swap_completes_example :
    SwapDone calm_host "order-1" demo_order zero_hash
      (run_jobs calm_host (leg_event held_event ∷ leg_event settled_event ∷ []) demo_world)
unfolding demo_order new_order
swap_completes_example =
    swap_completes calm_host "order-1" demo_world demo_order held_event settled_event zero_hash
      demo-IsValid demo-found named demo-pending demo-waiting refl demo-hash refl demo-hash refl
      full demo-matches (record { amount = pos 100; reads = demo-reads; pays = λ n p. refl })
      (λ n. refl) (λ n. omega arith)

late_cancel_fails_example :
    GivenUp demo_host "order-1" demo_order demo_order.outgoing
      (failure internal "cancelled by operator/client request" false
        (some "not a hub error — the client or operator requested cancellation"))
      (Asked (cancel demo_order.incoming.network demo_order.payment_hash))
      (run_job demo_host (queued_cancel "order-1") demo_world)
unfolding demo_order new_order
late_cancel_fails_example =
    late_cancel_fails demo_host "order-1" demo_world demo_order demo-IsValid demo-found refl

swept_order_unwinds_example :
    SweepResult demo_host "order-1" demo_order
      (ltb (9_000_000_000_000 + demo_host.min_safety_delta_ms) demo_order.incoming.tlc_expiry_at)
      (sweep_each demo_host 9_000_000_000_000 (demo_order ∷ []) demo_world).1
unfolding demo_order new_order
swept_order_unwinds_example =
    swept_order_unwinds demo_host "order-1" 9_000_000_000_000 demo_world demo_order [] demo-IsValid
      demo-found (inl refl) tt (λ n. refl)

run_jobs-History_example : History demo_host empty_world (run_jobs demo_host demo_jobs empty_world)
unfolding empty_world open_store replay
run_jobs-History_example = run_jobs-History demo_host demo_jobs empty_world no_orders-IsValid

maps_agree_example : IsValid (run_jobs demo_host demo_jobs empty_world).store.index
unfolding empty_world open_store replay
maps_agree_example = maps_agree demo_host demo_jobs empty_world no_orders-IsValid
