-- ===== src/Orders/Protocol.antt =====
-- The arrows and the rules R1 to R5 of spec/PROTOCOL.md 4.4 and 5, and the engine's own shortcuts, as a
-- step relation over the engine's state: what one step may write into an order, and which calls of a node the recorded order permits. It is stated apart
-- from the engine's code, which is held against it in `Engine.Refines`.
use bitfrost.Base.{◌≡◌, sym, ◌∙◌, ◌⊎◌, String, true, false, Option, none, some, ◌∷◌, str_eq}
use bitfrost.Sdk.Types.{
  Order, OrderState, pending, incoming_held, outgoing_in_flight, outgoing_settled, succeeded,
  refunding, waiting, in_flight, settled, Hash256, is_terminal,
}
use bitfrost.Orders.Store
use bitfrost.Orders.Store.{Store}
use bitfrost.Orders.Store.Keys.{IsValid, updated-IsValid}
use bitfrost.Orders.Engine.{matches}
use bitfrost.Orders.World.{
  Host, World, Request, create_hold, settle, cancel, invoice_state, pay, payment_state,
}

-- The arrows between states that 4.4 has.
infix 40 ◌⟶◌
pub data ◌⟶◌ (s : OrderState) (t : OrderState) : Type 0 where
  hold : s ≡ pending → t ≡ incoming_held → s ⟶ t
  dispatch : s ≡ incoming_held → t ≡ outgoing_in_flight → s ⟶ t
  learn : s ≡ outgoing_in_flight → t ≡ outgoing_settled → s ⟶ t
  claim : s ≡ outgoing_settled → t ≡ succeeded → s ⟶ t
  unwind : (s ≡ incoming_held) ⊎ (s ≡ outgoing_in_flight) → t ≡ refunding → s ⟶ t
  give_up : (s ≡ pending) ⊎ (s ≡ refunding) → t ≡ OrderState.failed → s ⟶ t

-- What one write of the engine does to the state: it leaves it, it takes an arrow of 4.4, or it fails
-- the order without REFUNDING, which 4.4 does not have.
pub data Moves (s : OrderState) (t : OrderState) : Type 0 where
  remain : t ≡ s → Moves s t
  take : s ⟶ t → Moves s t
  shortcut :
      (s ≡ incoming_held) ⊎ (s ≡ outgoing_in_flight) ⊎ (s ≡ outgoing_settled)
      → t ≡ OrderState.failed
      → Moves s t

-- What an order keeps from its creation on.
pub record SameTerms (o o' : Order) : Type 0 where
  pub order_id : o'.order_id ≡ o.order_id
  pub quote_id : o'.quote_id ≡ o.quote_id
  pub direction : o'.direction ≡ o.direction
  pub payment_hash : o'.payment_hash ≡ o.payment_hash
  pub created_at : o'.created_at ≡ o.created_at
  pub incoming_network : o'.incoming.network ≡ o.incoming.network
  pub incoming_amount : o'.incoming.amount ≡ o.incoming.amount
  pub incoming_expiry : o'.incoming.tlc_expiry_at ≡ o.incoming.tlc_expiry_at
  pub outgoing_network : o'.outgoing.network ≡ o.outgoing.network
  pub outgoing_amount : o'.outgoing.amount ≡ o.outgoing.amount
  pub outgoing_expiry : o'.outgoing.tlc_expiry_at ≡ o.outgoing.tlc_expiry_at
  pub outgoing_invoice : o'.outgoing.invoice ≡ o.outgoing.invoice

-- What an order that has ended keeps besides its terms: all but the invoice of its incoming leg, which
-- `createOrder` writes when the node answers, and the time of that.
pub record Reissued (o o' : Order) : Type 0 where
  pub state : o'.state ≡ o.state
  pub failure : o'.failure ≡ o.failure
  pub outgoing : o'.outgoing ≡ o.outgoing
  pub incoming_status : o'.incoming.status ≡ o.incoming.status
  pub incoming_preimage : o'.incoming.preimage ≡ o.incoming.preimage

module _ (host : Host) where
  -- A recorded preimage that hashes to the payment hash.
  abbrev pub IsProof : Option Hash256 → Hash256 → Type 0
  IsProof none hash = ⊥
  IsProof (some p) hash = (str_eq p "" ≡ false) × (matches host p hash ≡ true)

  -- What the fields of a recorded order say of one another.
  pub record IsSound (o : Order) : Type 0 where
    pub undispatched : (o.state ≡ pending) ⊎ (o.state ≡ incoming_held) → o.outgoing.status ≡ waiting
    pub dispatched : o.state ≡ outgoing_in_flight → o.outgoing.status ≡ in_flight
    pub paid :
        (o.state ≡ outgoing_settled) ⊎ (o.state ≡ succeeded)
        → IsProof o.outgoing.preimage o.payment_hash
    pub claimed :
        o.state ≡ succeeded
        → (o.incoming.preimage ≡ o.outgoing.preimage) × (o.incoming.status ≡ settled)
    pub excused : (o.state ≡ refunding) ⊎ (o.state ≡ OrderState.failed) → o.failure ≡ none → ⊥
    pub blameless : ((o.state ≡ refunding) ⊎ (o.state ≡ OrderState.failed) → ⊥) → o.failure ≡ none

  -- One recorded transition.
  pub record Advance (o o' : Order) : Type 0 where
    pub terms : SameTerms o o'
    pub move : Moves o.state o'.state
    pub final : is_terminal o.state ≡ true → Reissued o o'
    pub sound : IsSound o → IsSound o'

  -- The calls that a recorded order permits: the hold is settled only with the verified preimage of
  -- a settled outgoing leg (R1), the outgoing leg is paid only once it is recorded as dispatched
  -- (R2, R5), and the hold is cancelled only once the order is being given up (R3).
  abbrev pub Licensed : Order → Request → Type 0
  Licensed o (create_hold net r) =
      (o.state ≡ pending) × (net ≡ o.incoming.network) × (r.payment_hash ≡ o.payment_hash)
  Licensed o (settle net hash p) =
      (o.state ≡ outgoing_settled)
      × (net ≡ o.incoming.network)
      × (hash ≡ o.payment_hash)
      × (o.outgoing.preimage ≡ some p)
      × (matches host p hash ≡ true)
  Licensed o (cancel net hash) =
      ((o.state ≡ refunding) ⊎ (o.state ≡ OrderState.failed))
      × (net ≡ o.incoming.network)
      × (hash ≡ o.payment_hash)
  Licensed o (invoice_state net hash) = (net ≡ o.incoming.network) × (hash ≡ o.payment_hash)
  Licensed o (pay net invoice p) =
      (o.state ≡ outgoing_in_flight) × (net ≡ o.outgoing.network) × (invoice ≡ o.outgoing.invoice)
  Licensed o (payment_state net hash) = (net ≡ o.outgoing.network) × (hash ≡ o.payment_hash)

  -- One step on the order `id`: nothing that is recorded, a transition, or a call.
  pub data Step (id : String) (w w' : World) : Type 0 where
    quiet : w'.store ≡ w.store → w'.calls ≡ w.calls → Step id w w'
    write :
        (o o' : Order) (detail : Option String)
        → Store.find id w.store ≡ some o
        → Advance o o'
        → w'.store ≡ Store.updated id o.state o' detail w.store
        → w'.calls ≡ w.calls
        → Step id w w'
    call :
        (o : Order) (r : Request)
        → Store.find id w.store ≡ some o
        → Licensed o r
        → w'.store ≡ w.store
        → w'.calls ≡ record { on_disk = w.store.file; request = r } ∷ w.calls
        → Step id w w'

  pub data Runs (id : String) (w : World) : World → Type 0 where
    here : Runs id w w
    next : {u v : World} → Runs id w u → Step id u v → Runs id w v

  pub Runs-trans : {id : String} {w u v : World} → Runs id w u → Runs id u v → Runs id w v
  Runs-trans r here = r
  Runs-trans r (next q s) = next (Runs-trans r q) s

  -- A step keeps the maps of the store in agreement.
  pub Step-IsValid :
      {id : String} {w w' : World} → IsValid w.store.index → Step id w w' → IsValid w'.store.index
  Step-IsValid v (quiet e c) = rw e v
  Step-IsValid v (call o r f l e c) = rw e v
  Step-IsValid {id} {w} v (write o o' detail f a e c) =
      let same : o'.order_id ≡ id = a.terms.order_id ∙ v.keyed id o f in
      rw (e, ← same)
        (updated-IsValid o.state o' detail w.store {old = o} v (rw same f)
          (sym a.terms.payment_hash))

  pub Runs-IsValid :
      {id : String} {w w' : World} → IsValid w.store.index → Runs id w w' → IsValid w'.store.index
  Runs-IsValid v here = v
  Runs-IsValid v (next r s) = Step-IsValid (Runs-IsValid v r) s
