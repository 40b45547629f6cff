-- ===== src/Api/Coordinator.antt =====
-- `SwapCoordinator` (bifrostd/src/api/coordinator.ts): which orders are watched, and which
-- subscriptions ("pumps") have been started. The event streams themselves, the global pump and the
-- log are I/O.
use bitfrost.Base.{
  ◌≡◌, refl, String, Bool, true, false, not, Option, none, some, List, ◌∷◌, if◌then◌else◌,
  Bool-cases, inl, inr,
}
use bitfrost.Base.Dict
use bitfrost.Base.Dict.{Dict, get-delete_self}
use bitfrost.Sdk.Types.{
  Network, Hash256, Order, OrderState, outgoing_in_flight, outgoing_settled, succeeded, is_terminal,
}

pub data PumpSide : Type 0 where
  incoming outgoing : PumpSide

pub record Pump : Type 0 where
  pub order_id : String
  pub side : PumpSide
  pub network : Network
  pub hash : Hash256

-- `pending` is `outgoingPending`; the pumps stand newest first.
pub record Coordinator : Type 0 where
  pub controllers : Dict (Unit {0})
  pub pending : Dict (Network × Hash256)
  pub pumps : List Pump

abbrev pub is_dispatched : OrderState → Bool
is_dispatched outgoing_in_flight = true
is_dispatched outgoing_settled = true
is_dispatched succeeded = true
is_dispatched _ = false

unfoldable pub start_pump : String → PumpSide → Network → Hash256 → Coordinator → Coordinator
start_pump id side net hash c = record c {
  pumps = record { order_id = id; side = side; network = net; hash = hash } ∷ c.pumps;
}

abbrev outgoing_of : Order → Coordinator → Coordinator
outgoing_of o c =
    if is_dispatched o.state
    then start_pump o.order_id PumpSide.outgoing o.outgoing.network o.payment_hash c
    else record c { pending = Dict.set o.order_id (o.outgoing.network, o.payment_hash) c.pending }

unfoldable pub watch_order : Order → Coordinator → Coordinator
unfolding start_pump
watch_order o c =
    if Dict.has o.order_id c.controllers
    then c
    else outgoing_of o (
        start_pump o.order_id PumpSide.incoming o.incoming.network o.payment_hash
          (record c { controllers = Dict.set o.order_id tt c.controllers }))

unfoldable pub stop_order : String → Coordinator → Coordinator
stop_order id c = record c {
  controllers = Dict.delete id c.controllers;
  pending = Dict.delete id c.pending;
}

abbrev start_pending : String → Option (Network × Hash256) → Coordinator → Coordinator
start_pending id none c = c
start_pending id (some (net, hash)) c =
    start_pump id PumpSide.outgoing net hash (record c { pending = Dict.delete id c.pending })

-- `afterEvent`, for the order that it finds.
unfoldable pub after_event : Order → Coordinator → Coordinator
unfolding stop_order start_pump
after_event o c =
    if is_terminal o.state
    then stop_order o.order_id c
    else (if not (is_dispatched o.state)
        then c
        else start_pending o.order_id (Dict.get o.order_id c.pending) c)

pending_once :
    (id : String) (p : Option (Network × Hash256)) (c : Coordinator)
    → Dict.get id c.pending ≡ p
    → Dict.get id (start_pending id p c).pending ≡ none
unfolding start_pump
pending_once id none c h = h
pending_once id (some (net, hash)) c h = get-delete_self id c.pending

none_pending :
    (o : Order) (c : Coordinator)
    → is_dispatched o.state ≡ true
    → Dict.get o.order_id (after_event o c).pending ≡ none
unfolding after_event stop_order
none_pending o c sent = elim (Bool-cases (is_terminal o.state)) [
  | inl e ↦ rw e (get-delete_self o.order_id c.pending)
  | inr e ↦ rw (e, sent) (pending_once o.order_id (Dict.get o.order_id c.pending) c refl)
]

nothing_started :
    (o : Order) (c : Coordinator)
    → Dict.get o.order_id c.pending ≡ none
    → (after_event o c).pumps ≡ c.pumps
unfolding after_event stop_order
nothing_started o c h = elim (Bool-cases (is_terminal o.state)) [
  | inl e ↦ rw e refl
  | inr e ↦ elim (Bool-cases (is_dispatched o.state)) [
    | inl sent ↦ rw (e, sent, h) refl
    | inr waits ↦ rw (e, waits) refl
  ]
]

-- Events that come again start nothing twice: once an event has found an order dispatched, the next
-- event of the order starts no pump, in whatever state it finds the order.
pub pumps_started_once :
    (o later : Order) (c : Coordinator)
    → later.order_id ≡ o.order_id
    → is_dispatched o.state ≡ true
    → (after_event later (after_event o c)).pumps ≡ (after_event o c).pumps
pumps_started_once o later c same sent =
    nothing_started later (after_event o c) (simp same (none_pending o c sent))
