-- ===== src/Adapters/InOrder.antt =====
-- The order in which the events of a leg come (bifrostd/src/adapters).
use bitfrost.Base.{◌≡◌, refl, ℕ, Bool, true, false, Option, none, some, if◌then◌else◌}
use bitfrost.Sdk.Types.{Network, Hash256}
use bitfrost.Orders.Ports.{
  SwapLegEvent, EventKind, incoming_held, incoming_settled, incoming_cancelled, outgoing_in_flight,
  outgoing_settled, outgoing_failed,
}
use bitfrost.Adapters.Events.{
  Yields, returned, stopped, thrown, yields, Role, incoming, outgoing, plain_event, goes_on,
}

abbrev pub role_of : EventKind → Role
role_of incoming_held = incoming
role_of incoming_settled = incoming
role_of incoming_cancelled = incoming
role_of outgoing_in_flight = outgoing
role_of outgoing_settled = outgoing
role_of outgoing_failed = outgoing

-- After an event that goes on, this holds of the rest; after another one there is none.
abbrev pub Rest : Bool → Type 0 → Yields SwapLegEvent → Type 0
Rest true P rest = P
Rest false P rest = rest ≡ returned

-- Every event is of this network, hash and role, and the generator returns after the first one that
-- settles, cancels or fails the leg.
abbrev pub InOrder : Network → Hash256 → Role → Yields SwapLegEvent → Type 0
InOrder net hash role returned = Unit
InOrder net hash role stopped = Unit
InOrder net hash role (thrown e) = Unit
InOrder net hash role (yields e rest) =
    (e.network ≡ net)
    × (e.payment_hash ≡ hash)
    × (role_of e.kind ≡ role)
    × Rest (goes_on e.kind) (InOrder net hash role rest) rest

-- A kind, if any, is of this role.
abbrev pub OfRole : Role → Option EventKind → Type 0
OfRole role none = Unit
OfRole role (some kind) = role_of kind ≡ role

pub yielded-InOrder :
    (net : Network) (hash : Hash256) (now : ℕ) (role : Role) (kind : EventKind)
    (later : Yields SwapLegEvent)
    → role_of kind ≡ role
    → InOrder net hash role later
    → InOrder net hash role
        (yields (plain_event net hash now kind) (if goes_on kind then later else returned))
yielded-InOrder net hash now role incoming_held later r l = (refl, refl, r, l)
yielded-InOrder net hash now role incoming_settled later r l = (refl, refl, r, refl)
yielded-InOrder net hash now role incoming_cancelled later r l = (refl, refl, r, refl)
yielded-InOrder net hash now role outgoing_in_flight later r l = (refl, refl, r, l)
yielded-InOrder net hash now role outgoing_settled later r l = (refl, refl, r, refl)
yielded-InOrder net hash now role outgoing_failed later r l = (refl, refl, r, refl)

pub either-InOrder :
    (net : Network) (hash : Hash256) (role : Role) (b : Bool) (xs ys : Yields SwapLegEvent)
    → InOrder net hash role xs
    → InOrder net hash role ys
    → InOrder net hash role (if b then xs else ys)
either-InOrder net hash role true xs ys hx hy = hx
either-InOrder net hash role false xs ys hx hy = hy
