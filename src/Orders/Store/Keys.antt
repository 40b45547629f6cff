-- ===== src/Orders/Store/Keys.antt =====
-- How the maps of the store agree (bifrostd/src/orders/store.ts).
use bitfrost.Base.{
  ◌≡◌, ◌≢◌, refl, sym, ◌∙◌, String, Option, none, some, List, arith, inl, inr, Option-cases,
  String-cases,
}
use bitfrost.Base.Dict
use bitfrost.Base.Dict.{get-set, get-set_self, get-set_ne}
use bitfrost.Sdk.Types.{Order, OrderState}
use bitfrost.Orders.Store.{
  Index, Store, created, create, updated, OrderEvent, with_order, push_event, no_orders,
}

-- Each map agrees with the orders: an order stands under its id and its payment hash, a known hash
-- leads to an order that has it, and only known ids have a history.
pub record IsValid (x : Index) : Type 0 where
  pub keyed : (id : String) (o : Order) → Dict.get id x.orders ≡ some o → o.order_id ≡ id
  pub hashed :
      (id : String) (o : Order)
      → Dict.get id x.orders ≡ some o
      → Dict.get o.payment_hash x.by_hash ≡ some id
  pub owned :
      (h id : String)
      → Dict.get h x.by_hash ≡ some id
      → (o : Order) × (Dict.get id x.orders ≡ some o) × (o.payment_hash ≡ h)
  pub logged : (id : String) → Dict.get id x.orders ≡ none → Dict.get id x.log ≡ none

-- The empty maps agree.
pub no_orders-IsValid : IsValid no_orders
unfolding Dict.get
no_orders-IsValid = record {
  keyed = λ id o h. cc;
  hashed = λ id o h. cc;
  owned = λ h id e. absurd (cc);
  logged = λ id h. refl;
}

-- Two orders with one payment hash are one order.
pub one_order_per_hash :
    (x : Index) (i j : String) (o p : Order)
    → IsValid x
    → Dict.get i x.orders ≡ some o
    → Dict.get j x.orders ≡ some p
    → o.payment_hash ≡ p.payment_hash
    → i ≡ j
one_order_per_hash x i j o p v eo ep e = cc (v.hashed i o eo, v.hashed j p ep)

-- What a new value of an order must agree with.
pub record Fits (x : Index) (o : Order) : Type 0 where
  pub same_hash :
      (p : Order) → Dict.get o.order_id x.orders ≡ some p → p.payment_hash ≡ o.payment_hash
  pub same_id : (id : String) → Dict.get o.payment_hash x.by_hash ≡ some id → id ≡ o.order_id

unfoldable pub entered : Order → List OrderEvent → Index → Index
entered o evs x = record (with_order o x) { log = Dict.set o.order_id evs x.log }

module _ (x : Index) (o : Order) (evs : List OrderEvent) (v : IsValid x) (f : Fits x o) where
  entered-keyed :
      (id : String) (p : Order) → Dict.get id (entered o evs x).orders ≡ some p → p.order_id ≡ id
  unfolding entered with_order
  entered-keyed id p h = elim (String-cases o.order_id id) [
    | inl e ↦ cc (get-set_self o.order_id o x.orders)
    | inr ne ↦ v.keyed id p (rw (← get-set_ne o.order_id id o x.orders ne) h)
  ]

  kept_hash :
      (id : String) (p : Order)
      → o.order_id ≢ id
      → Dict.get id x.orders ≡ some p
      → Dict.get p.payment_hash (Dict.set o.payment_hash o.order_id x.by_hash) ≡ some id
  kept_hash id p ne h = elim (String-cases o.payment_hash p.payment_hash) [
    | inl e ↦ absurd (ne (sym (f.same_id id (cc (v.hashed id p h)))))
    | inr other ↦
        get-set_ne o.payment_hash p.payment_hash o.order_id x.by_hash other ∙ v.hashed id p h
  ]

  entered-hashed :
      (id : String) (p : Order)
      → Dict.get id (entered o evs x).orders ≡ some p
      → Dict.get p.payment_hash (entered o evs x).by_hash ≡ some id
  unfolding entered with_order
  entered-hashed id p h = elim (String-cases o.order_id id) [
    | inl e ↦
        cc (get-set_self o.order_id o x.orders, get-set_self o.payment_hash o.order_id x.by_hash)
    | inr ne ↦ kept_hash id p ne (sym (get-set_ne o.order_id id o x.orders ne) ∙ h)
  ]

  kept_owner :
      (h id : String)
      → o.payment_hash ≢ h
      → Dict.get h x.by_hash ≡ some id
      → (p : Order) × (Dict.get id (Dict.set o.order_id o x.orders) ≡ some p) × (p.payment_hash ≡ h)
  kept_owner h id ne e =
      let (p, ep, eh) = v.owned h id e in
      elim (String-cases o.order_id id) [
        | inl same ↦ absurd (ne (sym (f.same_hash p (cc)) ∙ eh))
        | inr other ↦ (p, get-set_ne o.order_id id o x.orders other ∙ ep, eh)
      ]

  entered-owned :
      (h id : String)
      → Dict.get h (entered o evs x).by_hash ≡ some id
      → (p : Order) × (Dict.get id (entered o evs x).orders ≡ some p) × (p.payment_hash ≡ h)
  unfolding entered with_order
  entered-owned h id e = elim (String-cases o.payment_hash h) [
    | inl eh ↦ (
      o,
      cc (get-set_self o.order_id o x.orders, get-set_self o.payment_hash o.order_id x.by_hash),
      eh,
    )
    | inr ne ↦ kept_owner h id ne (sym (get-set_ne o.payment_hash h o.order_id x.by_hash ne) ∙ e)
  ]

  entered-logged :
      (id : String)
      → Dict.get id (entered o evs x).orders ≡ none
      → Dict.get id (entered o evs x).log ≡ none
  unfolding entered with_order
  entered-logged id h = elim (String-cases o.order_id id) [
    | inl e ↦ cc (get-set_self o.order_id o x.orders)
    | inr ne ↦
        get-set_ne o.order_id id evs x.log ne
        ∙ v.logged id (sym (get-set_ne o.order_id id o x.orders ne) ∙ h)
  ]

  pub entered-IsValid : IsValid (entered o evs x)
  entered-IsValid = record {
    keyed = entered-keyed;
    hashed = entered-hashed;
    owned = entered-owned;
    logged = entered-logged;
  }

-- A creation that succeeds met neither its id nor its hash, and adds the order.
pub create_inv :
    (o : Order) (s : Store) {t : Store}
    → create o s ≡ some t
    → (Dict.get o.order_id s.orders ≡ none)
      × (Dict.get o.payment_hash s.by_hash ≡ none)
      × (t ≡ created o s)
unfolding create
create_inv o s h = elim (Option-cases (Dict.get o.order_id s.orders)) [
  | inr (p, e) ↦ absurd (ground arith)
  | inl free ↦ elim (Option-cases (Dict.get o.payment_hash s.by_hash)) [
    | inr (id, e) ↦ absurd (ground arith)
    | inl new ↦ (free, new, ground arith)
  ]
]

pub created-IsValid :
    (o : Order) (s : Store)
    → IsValid s.index
    → Dict.get o.order_id s.orders ≡ none
    → Dict.get o.payment_hash s.by_hash ≡ none
    → IsValid (created o s).index
unfolding created entered
created-IsValid o s v free new =
    entered-IsValid s.index o _ v
      (record { same_hash = λ p hp. absurd (cc); same_id = λ id hi. absurd (cc) })

-- An update that keeps the order's id and hash keeps the maps in agreement.
pub updated-IsValid :
    (from : OrderState) (next : Order) (detail : Option String) (s : Store) {old : Order}
    → IsValid s.index
    → Dict.get next.order_id s.orders ≡ some old
    → old.payment_hash ≡ next.payment_hash
    → IsValid (updated next.order_id from next detail s).index
unfolding updated entered push_event
updated-IsValid from next detail s v h e = entered-IsValid s.index next _ v (record {
  same_hash = λ p hp. cc;
  same_id = λ id hi.
      let (p, ep, eh) = v.owned next.payment_hash id hi in
      one_order_per_hash s.index id next.order_id p _ v ep h (eh ∙ sym e);
})
