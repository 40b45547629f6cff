-- ===== src/Adapters/Lightning/Streams.antt =====
-- The events of `legEvents` (bifrostd/src/adapters/lightning.ts).
use Prim.Native.String.{◌++◌ as append}
use bitfrost.Base.{
  ◌≡◌, refl, ℕ, suc, String, Bool, true, false, Option, none, some, List, [], ◌∷◌, str_eq, truthy,
  Bool-cases, inl, inr, if◌then◌else◌,
}
use bitfrost.Sdk.Types.{Hash256, lightning}
use bitfrost.Orders.Ports.{Result, ok, err, SwapLegEvent, EventKind}
use bitfrost.Orders.Bindings.{PaymentUpdate}
use bitfrost.Adapters.Events.{
  Yields, returned, stopped, thrown, yields, Role, incoming, outgoing, assert_hash256,
}
use bitfrost.Adapters.InOrder.{InOrder, OfRole, yielded-InOrder, either-InOrder}
use bitfrost.Adapters.Lightning.{
  Frame, frame_error, frame_result, RestPayment, is_zeros, given_preimage, update_of, track_frames,
  track_payment, is_final, asserted, invoice_kind, invoice_event, invoice_events, incoming_events,
  update_event, payment_events, outgoing_events,
}

kind_incoming : (state : String) → OfRole incoming (invoice_kind state)
unfolding invoice_kind
kind_incoming state = elim (Bool-cases (str_eq state "ACCEPTED")) [
  | inl a ↦ rw a refl
  | inr a ↦ elim (Bool-cases (str_eq state "SETTLED")) [
    | inl b ↦ rw (a, b) refl
    | inr b ↦ elim (Bool-cases (str_eq state "CANCELED")) [
      | inl c ↦ rw (a, b, c) refl
      | inr c ↦ rw (a, b, c) tt
    ]
  ]
]

invoice-InOrder :
    (hash : Hash256) (now : ℕ) (kind : Option EventKind) (later : Yields SwapLegEvent)
    → OfRole incoming kind
    → InOrder lightning hash incoming later
    → InOrder lightning hash incoming (invoice_event hash now kind later)
invoice-InOrder hash now none later k l = l
invoice-InOrder hash now (some kind) later k l =
    yielded-InOrder lightning hash now incoming kind later k l

invoices-InOrder :
    (hash : Hash256) (frames : List (ℕ × Frame String))
    → InOrder lightning hash incoming (invoice_events hash frames)
unfolding invoice_events
invoices-InOrder hash [] = tt
invoices-InOrder hash ((now, frame_error) ∷ fs) = tt
invoices-InOrder hash ((now, frame_result state) ∷ fs) =
    invoice-InOrder hash now (invoice_kind state) _ (kind_incoming state) (invoices-InOrder hash fs)

asserted-InOrder :
    (hash : Hash256) (role : Role) (r : Result (Unit {0})) (y : Yields SwapLegEvent)
    → InOrder lightning hash role y
    → InOrder lightning hash role (asserted r y)
asserted-InOrder hash role (ok u) y h = h
asserted-InOrder hash role (err e) y h = tt

update-InOrder :
    (hash : Hash256) (now : ℕ) (u : PaymentUpdate) (later : Yields SwapLegEvent)
    → InOrder lightning hash outgoing later
    → InOrder lightning hash outgoing (update_event hash now u later)
unfolding update_event
update-InOrder hash now u later l =
    either-InOrder lightning hash outgoing (str_eq u.status "IN_FLIGHT") _ _ (refl, refl, refl, l)
      (either-InOrder lightning hash outgoing (str_eq u.status "SUCCEEDED") _ _
        (refl, refl, refl, refl)
        (either-InOrder lightning hash outgoing (str_eq u.status "FAILED") _ _
          (refl, refl, refl, refl) l))

payments-InOrder :
    (clock : ℕ → ℕ) (hash : Hash256) (n : ℕ) (updates : Yields PaymentUpdate)
    → InOrder lightning hash outgoing (payment_events clock hash n updates)
unfolding payment_events
payments-InOrder clock hash n returned = tt
payments-InOrder clock hash n stopped = tt
payments-InOrder clock hash n (thrown e) = tt
payments-InOrder clock hash n (yields u rest) =
    update-InOrder hash (clock n) u _ (payments-InOrder clock hash (suc n) rest)

-- Whatever frames LND streams for a leg, every event is of that hash and role, and the generator
-- returns right after the first event that settles, cancels or fails the leg.
pub streamed-InOrder :
    (clock : ℕ → ℕ) (hash : Hash256) (invoices : List (ℕ × Frame String))
    (payments : List (Frame RestPayment))
    → InOrder lightning hash incoming (incoming_events hash invoices)
      × InOrder lightning hash outgoing (outgoing_events clock hash payments)
unfolding incoming_events outgoing_events
streamed-InOrder clock hash invoices payments = (
  asserted-InOrder hash incoming (assert_hash256 hash) _ (invoices-InOrder hash invoices),
  payments-InOrder clock hash 0 (track_payment hash payments),
)

-- A preimage that is the "0x" of a text which does not consist of zeros.
abbrev pub RealPreimage : Option Hash256 → Type 0
RealPreimage none = Unit
RealPreimage (some p) = (t : String) × (p ≡ append "0x" t) × (is_zeros t ≡ false)

abbrev RealUpdates : Yields PaymentUpdate → Type 0
RealUpdates returned = Unit
RealUpdates stopped = Unit
RealUpdates (thrown e) = Unit
RealUpdates (yields u rest) = RealPreimage u.preimage × RealUpdates rest

abbrev pub RealEvents : Yields SwapLegEvent → Type 0
RealEvents returned = Unit
RealEvents stopped = Unit
RealEvents (thrown e) = Unit
RealEvents (yields e rest) = RealPreimage e.preimage × RealEvents rest

given-RealPreimage : (s : Option String) → RealPreimage (given_preimage s)
given-RealPreimage none = tt
given-RealPreimage (some s) = elim (Bool-cases (is_zeros s)) [
  | inl z ↦ rw z tt
  | inr z ↦ rw z (s, refl, z)
]

either-RealUpdates :
    (b : Bool) (xs ys : Yields PaymentUpdate)
    → RealUpdates xs
    → RealUpdates ys
    → RealUpdates (if b then xs else ys)
either-RealUpdates true xs ys hx hy = hx
either-RealUpdates false xs ys hx hy = hy

either-RealEvents :
    (b : Bool) (xs ys : Yields SwapLegEvent)
    → RealEvents xs
    → RealEvents ys
    → RealEvents (if b then xs else ys)
either-RealEvents true xs ys hx hy = hx
either-RealEvents false xs ys hx hy = hy

tracked-RealUpdates : (frames : List (Frame RestPayment)) → RealUpdates (track_frames frames)
unfolding track_frames update_of
tracked-RealUpdates [] = tt
tracked-RealUpdates (frame_error ∷ fs) = tt
tracked-RealUpdates (frame_result p ∷ fs) = (
  given-RealPreimage (truthy p.payment_preimage),
  either-RealUpdates (is_final p.status) returned (track_frames fs) tt (tracked-RealUpdates fs),
)

truthy-RealPreimage : (p : Option Hash256) → RealPreimage p → RealPreimage (truthy p)
truthy-RealPreimage none h = tt
truthy-RealPreimage (some p) h = elim (Bool-cases (str_eq p "")) [
  | inl e ↦ rw e tt
  | inr e ↦ rw e h
]

events-RealEvents :
    (clock : ℕ → ℕ) (hash : Hash256) (n : ℕ) (updates : Yields PaymentUpdate)
    → RealUpdates updates
    → RealEvents (payment_events clock hash n updates)
unfolding payment_events update_event
events-RealEvents clock hash n returned h = tt
events-RealEvents clock hash n stopped h = tt
events-RealEvents clock hash n (thrown e) h = tt
events-RealEvents clock hash n (yields u rest) (p, h) =
    let later = events-RealEvents clock hash (suc n) rest h in
    either-RealEvents (str_eq u.status "IN_FLIGHT") _ _ (tt, later)
      (either-RealEvents (str_eq u.status "SUCCEEDED") _ _ (truthy-RealPreimage u.preimage p, tt)
        (either-RealEvents (str_eq u.status "FAILED") _ _ (tt, tt) later))

asserted-RealUpdates :
    (r : Result (Unit {0})) (y : Yields PaymentUpdate) → RealUpdates y → RealUpdates (asserted r y)
asserted-RealUpdates (ok u) y h = h
asserted-RealUpdates (err e) y h = tt

-- The placeholder of zeros that LND sends before a payment succeeds never becomes a preimage: the
-- preimage of an event of an outgoing leg, where there is one, is "0x" and a text that is not zeros.
pub streamed-RealEvents :
    (clock : ℕ → ℕ) (hash : Hash256) (payments : List (Frame RestPayment))
    → RealEvents (outgoing_events clock hash payments)
unfolding outgoing_events track_payment
streamed-RealEvents clock hash payments =
    events-RealEvents clock hash 0 _
      (asserted-RealUpdates (assert_hash256 hash) _ (tracked-RealUpdates payments))
