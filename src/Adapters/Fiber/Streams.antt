-- ===== src/Adapters/Fiber/Streams.antt =====
-- The events of `pollLegEvents` and `legEvents` (bifrostd/src/adapters/fiber.ts).
use bitfrost.Base.{
  ◌≡◌, refl, ℕ, String, Bool, true, false, ◌||◌, Option, none, some, List, [], ◌∷◌, str_eq,
  Bool-cases, inl, inr, if◌then◌else◌,
}
use bitfrost.Sdk.Types.{Hash256, fiber}
use bitfrost.Orders.Ports.{Result, ok, err, SwapLegEvent, EventKind}
use bitfrost.Orders.Bindings.{FiberPayment}
use bitfrost.Adapters.Events.{
  Yields, returned, stopped, thrown, yields, incoming, outgoing, goes_on,
}
use bitfrost.Adapters.InOrder.{InOrder, OfRole, yielded-InOrder, either-InOrder}
use bitfrost.Adapters.Fiber.{
  polled_kind, invoice_kind, polled_status, poll_incoming, polled_payment, poll_outgoing, is_last,
  emitted, status_event, StoreChange, put_invoice_status, normalize_store_change, leg_events,
}

kind_incoming : (status : String) → OfRole incoming (polled_kind status)
unfolding polled_kind
kind_incoming status = elim (Bool-cases (str_eq status "Received")) [
  | inl a ↦ rw a refl
  | inr a ↦ elim (Bool-cases (str_eq status "Paid")) [
    | inl b ↦ rw (a, b) refl
    | inr b ↦ elim (Bool-cases (str_eq status "Cancelled" || str_eq status "Expired")) [
      | inl c ↦ rw (a, b, c) refl
      | inr c ↦ rw (a, b, c) tt
    ]
  ]
]

status-InOrder :
    (hash : Hash256) (now : ℕ) (kind : Option EventKind) (later : Yields SwapLegEvent)
    → OfRole incoming kind
    → InOrder fiber hash incoming later
    → InOrder fiber hash incoming (polled_status hash now kind later)
status-InOrder hash now none later k l = l
status-InOrder hash now (some kind) later k l =
    yielded-InOrder fiber hash now incoming kind later k l

incoming-InOrder :
    (hash : Hash256) (last : Option String) (answers : List (ℕ × Result String))
    → InOrder fiber hash incoming (poll_incoming hash last answers)
unfolding poll_incoming
incoming-InOrder hash last [] = tt
incoming-InOrder hash last ((now, err e) ∷ answers) = tt
incoming-InOrder hash last ((now, ok status) ∷ answers) =
    either-InOrder fiber hash incoming (is_last last status) _ _
      (incoming-InOrder hash last answers)
      (status-InOrder hash now (polled_kind status) _ (kind_incoming status)
        (incoming-InOrder hash (some status) answers))

payment-InOrder :
    (hash : Hash256) (now : ℕ) (p : FiberPayment) (later : Yields SwapLegEvent)
    → InOrder fiber hash outgoing later
    → InOrder fiber hash outgoing (polled_payment hash now p later)
unfolding polled_payment
payment-InOrder hash now p later l =
    either-InOrder fiber hash outgoing (str_eq p.status "Inflight") _ _ (refl, refl, refl, l)
      (either-InOrder fiber hash outgoing (str_eq p.status "Success") _ _ (refl, refl, refl, refl)
        (either-InOrder fiber hash outgoing (str_eq p.status "Failed") _ _ (refl, refl, refl, refl)
          l))

outgoing-InOrder :
    (hash : Hash256) (last : Option String) (answers : List (ℕ × Result FiberPayment))
    → InOrder fiber hash outgoing (poll_outgoing hash last answers)
unfolding poll_outgoing
outgoing-InOrder hash last [] = tt
outgoing-InOrder hash last ((now, err e) ∷ answers) = tt
outgoing-InOrder hash last ((now, ok p) ∷ answers) =
    either-InOrder fiber hash outgoing (is_last last p.status) _ _
      (outgoing-InOrder hash last answers)
      (payment-InOrder hash now p _ (outgoing-InOrder hash (some p.status) answers))

-- Whatever the Fiber node answers while a leg is polled, every event is of that hash and role, and
-- the poll returns right after the first event that settles, cancels or fails the leg.
pub polled-InOrder :
    (hash : Hash256) (last : Option String) (invoices : List (ℕ × Result String))
    (payments : List (ℕ × Result FiberPayment))
    → InOrder fiber hash incoming (poll_incoming hash last invoices)
      × InOrder fiber hash outgoing (poll_outgoing hash last payments)
polled-InOrder hash last invoices payments =
    (incoming-InOrder hash last invoices, outgoing-InOrder hash last payments)

abbrev pub answered : List (ℕ × String) → List (ℕ × Result String)
answered [] = []
answered ((now, status) ∷ rest) = (now, ok status) ∷ answered rest

-- The changes that a node streams for these statuses of an invoice: one for each that is new.
pub changes_of : Hash256 → Option String → List (ℕ × String) → List (ℕ × StoreChange)
changes_of hash last [] = []
changes_of hash last ((now, status) ∷ rest) =
    let same = changes_of hash last rest in
    let later = changes_of hash (some status) rest in
    if is_last last status then same else (now, put_invoice_status hash status) ∷ later

-- Up to the first event that settles or cancels the leg.
abbrev pub until_final : Yields SwapLegEvent → Yields SwapLegEvent
until_final returned = returned
until_final stopped = stopped
until_final (thrown e) = thrown e
until_final (yields e rest) = yields e (if goes_on e.kind then until_final rest else returned)

emitted_polled :
    (hash : Hash256) (now : ℕ) (kind : Option EventKind) (a b : Yields SwapLegEvent)
    → a ≡ until_final b
    → polled_status hash now kind a ≡ until_final (emitted (status_event hash now kind) b)
emitted_polled hash now none a b e = e
emitted_polled hash now (some kind) a b e = rw e refl

polled_either :
    (b : Bool) (x y : Yields SwapLegEvent) (s l : List (ℕ × StoreChange))
    → x ≡ until_final (leg_events s)
    → y ≡ until_final (leg_events l)
    → (if b then x else y) ≡ until_final (leg_events (if b then s else l))
polled_either true x y s l hx hy = hx
polled_either false x y s l hx hy = hy

same_kind : (status : String) → polled_kind status ≡ invoice_kind status
unfolding polled_kind invoice_kind
same_kind status = refl

-- Polling an incoming leg and listening to the stream of changes agree: where the node answers these
-- statuses at these times, and streams one change for each status that is new, the events polled are
-- those of the stream, up to the first one that settles or cancels the leg.
pub polled_as_streamed :
    (hash : Hash256) (last : Option String) (statuses : List (ℕ × String))
    → poll_incoming hash last (answered statuses)
      ≡ until_final (leg_events (changes_of hash last statuses))
unfolding poll_incoming changes_of leg_events normalize_store_change
polled_as_streamed hash last [] = refl
polled_as_streamed hash last ((now, status) ∷ rest) =
    polled_either (is_last last status) _ _ _ _ (polled_as_streamed hash last rest) (
      emitted_polled hash now (invoice_kind status) _ _
        (polled_as_streamed hash (some status) rest))
