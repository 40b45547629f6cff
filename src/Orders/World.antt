-- ===== src/Orders/World.antt =====
-- The state that the engine works on, and its actions: what was written before an error stays
-- written, so the state comes back beside the error.
use bitfrost.Base.{ℕ, ◌+◌, String, Bool, true, Option, none, some, List, ◌∷◌}
use bitfrost.Base.Int.{ℤ}
use bitfrost.Sdk.Types.{Network, Hash256, Order, Thrown, type_error, plain_error}
use bitfrost.Orders.Store
use bitfrost.Orders.Store.{Store, Piece}
use bitfrost.Orders.Ports.{Result, ok, err, HoldRequest, PayRequest, NetworkPorts}

pub data Request : Type 0 where
  create_hold : Network → HoldRequest → Request
  settle : Network → Hash256 → Hash256 → Request
  cancel : Network → Hash256 → Request
  invoice_state : Network → Hash256 → Request
  pay : Network → String → PayRequest → Request
  payment_state : Network → Hash256 → Request

-- A call of a node, with what was on disk when it was made.
pub record Call : Type 0 where
  pub on_disk : List Piece
  pub request : Request

pub data Level : Type 0 where
  info warn critical : Level

-- `tick` counts the answers that came from outside. Calls and log lines stand newest first; of a log
-- line the level and the order are kept.
pub record World : Type 0 where
  pub store : Store
  pub ready : Bool
  pub tick : ℕ
  pub calls : List Call
  pub logs : List (Level × String)

-- `OrderEngineOptions`, the hash function, the clock and the ids of new orders.
pub record Host : Type 0 where
  pub sha256 : List ℕ → List ℕ
  pub ports : Network → NetworkPorts
  pub min_safety_delta_ms : ℕ
  pub max_fee_for : ℤ → ℤ
  pub clock : ℕ → ℕ
  pub new_order_id : ℕ → ℕ → String

abbrev pub Action : Type 0 → Type 0
Action A = World → Result A × World

module _ {A : Type 0} where
  abbrev pub pure : A → Action A
  pure a w = (ok a, w)

  abbrev pub throw : Thrown → Action A
  throw e w = (err e, w)

  abbrev pub or_throw : Option A → Thrown → Action A
  or_throw none e w = (err e, w)
  or_throw (some a) e w = (ok a, w)

  abbrev pub lift : Option A → Thrown → Action A
  lift = or_throw

  abbrev pub handle_error : Result A → (Thrown → Action A) → Action A
  handle_error (ok a) h w = (ok a, w)
  handle_error (err e) h w = h e w

  -- `try { … } catch (e) { … }`.
  unfoldable pub try_catch : Action A → (Thrown → Action A) → Action A
  try_catch m h w = let (r, w') = m w in handle_error r h w'

abbrev pub done : Action (Unit {0})
done = pure tt

module _ {A B : Type 0} where
  abbrev pub continue : Result A → (A → Action B) → Action B
  continue (ok a) f w = f a w
  continue (err e) f w = (err e, w)

  infixl 5 ◌>>=◌
  unfoldable pub ◌>>=◌ : Action A → (A → Action B) → Action B
  ◌>>=◌ m f w = let (r, w') = m w in continue r f w'

module _ {A : Type 0} where
  infixl 5 ◌>>◌
  abbrev pub ◌>>◌ : Action (Unit {0}) → Action A → Action A
  m >> k = m >>= λ _. k

unfoldable pub now : Host → Action ℕ
now host w = (ok (host.clock w.tick), record w { tick = w.tick + 1 })

unfoldable pub log : Level → String → Action (Unit {0})
log level id w = (ok tt, record w { logs = (level, id) ∷ w.logs })

module _ {A : Type 0} where
  -- A call of a node: the request is made, and the answer comes back.
  unfoldable pub ask : Request → (ℕ → Result A) → Action A
  ask request answer w = (
    answer w.tick,
    record w {
      tick = w.tick + 1;
      calls = record { on_disk = w.store.file; request = request } ∷ w.calls;
    },
  )

-- `store.get(orderId)!`: on an absent order the next use of it is a TypeError.
unfoldable pub get_order : String → Action Order
get_order id w = or_throw (Store.find id w.store) type_error w

-- `store.get(orderId)` where its absence is an error of its own.
unfoldable pub find_order : String → Thrown → Action Order
find_order id e w = or_throw (Store.find id w.store) e w

-- The orders that the store lists at this moment.
unfoldable pub open_orders : Action (List Order)
open_orders w = (ok (Store.list_non_terminal w.store), w)

unfoldable pub find_by_hash : Hash256 → Action (Option Order)
find_by_hash hash w = (ok (Store.get_by_hash hash w.store), w)

unfoldable pub set_ready : Action (Unit {0})
set_ready w = (ok tt, record w { ready = true })

abbrev pub with_store : Option (Order × Store) → Action Order
with_store none w = (err plain_error, w)
with_store (some (o, s)) w = (ok o, record w { store = s })

unfoldable pub transition : String → (Order → Order) → String → Action Order
transition id mutate detail w = with_store (Store.transition id mutate (some detail) w.store) w

abbrev with_created : Option Store → Action (Unit {0})
with_created none w = (err plain_error, w)
with_created (some s) w = (ok tt, record w { store = s })

unfoldable pub create : Order → Action (Unit {0})
create o w = with_created (Store.create o w.store) w

-- A transition whose result is not used.
unfoldable pub save : String → (Order → Order) → String → Action (Unit {0})
unfolding transition ◌>>=◌
save id mutate detail = do _ ← transition id mutate detail; done
