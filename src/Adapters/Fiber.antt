-- ===== src/Adapters/Fiber.antt =====
-- `FiberAdapter` (bifrostd/src/adapters/fiber.ts) over the calls of its transport. Each call is told
-- how many answers came before it.
pub mod Keyed
pub mod Streams
pub mod Channels
use bitfrost.Base.{
  ℕ, String, Bool, true, false, not, ◌||◌, ◌&&◌, Option, none, some, List, [], ◌∷◌, str_eq,
  if◌then◌else◌,
}
use bitfrost.Base.Int.{ℤ}
use bitfrost.Sdk.Types.{Hash256, CkbScript, Thrown, fiber, adapter_error}
use bitfrost.Orders.Ports.{
  Result, ok, err, SwapLegEvent, EventKind, incoming_held, incoming_settled, incoming_cancelled,
  outgoing_in_flight, outgoing_settled, outgoing_failed,
}
use bitfrost.Orders.Bindings.{FiberAdapter, FiberPayment}
use bitfrost.Rfq.Fallible.{◌>>=◌, ◌>>◌, when}
use bitfrost.Fnn.{encode_u64_hex, encode_u128_hex, decode_u128_hex, encode_hex, decode_hex}
use bitfrost.Adapters.Events.{
  Yields, returned, stopped, thrown, yields, assert_hash256, plain_event, goes_on,
}

pub record NewInvoice : Type 0 where
  pub amount : String
  pub currency : String
  pub payment_hash : Hash256
  pub hash_algorithm : String
  pub final_expiry_delta : String
  pub udt_type_script : Option CkbScript
  pub description : String

pub record NewInvoiceResult : Type 0 where
  pub invoice_address : String
  pub payment_hash : Hash256

pub record SendPayment : Type 0 where
  pub invoice : String
  pub max_fee_amount : String
  pub tlc_expiry_limit : String

pub record ParsedInvoice : Type 0 where
  pub amount : Option String
  pub payment_hash : Hash256

-- With the currency of the adapter's options.
pub record FnnTransport : Type 0 where
  pub currency : String
  pub new_invoice : ℕ → NewInvoice → Result NewInvoiceResult
  pub settle_invoice : ℕ → Hash256 → Hash256 → Result (Unit {0})
  pub cancel_invoice : ℕ → Hash256 → Result (Unit {0})
  pub get_invoice : ℕ → Hash256 → Result String
  pub send_payment : ℕ → SendPayment → Result (Unit {0})
  pub get_payment : ℕ → Hash256 → Result FiberPayment

abbrev pub invoice_params :
    String → Hash256 → Option CkbScript → String → String → String → NewInvoice
invoice_params currency hash script description amount delta = record {
  amount = amount;
  currency = currency;
  payment_hash = hash;
  hash_algorithm = "sha256";
  final_expiry_delta = delta;
  udt_type_script = script;
  description = description;
}

abbrev address_of : NewInvoiceResult → Hash256 → Result String
address_of res hash = do
  when (not (str_eq res.payment_hash hash)) (err adapter_error)
  ok res.invoice_address

unfoldable pub new_hold_invoice :
    FnnTransport → ℕ → ℤ → Hash256 → ℤ → Option CkbScript → String → Result String
unfolding assert_hash256 encode_hex ◌>>=◌
new_hold_invoice t n amount hash delta script description = do
  assert_hash256 hash
  amount_hex ← encode_u128_hex amount
  delta_hex ← encode_u64_hex delta
  res ← t.new_invoice n (invoice_params t.currency hash script description amount_hex delta_hex)
  address_of res hash

unfoldable pub settle_hold_invoice : FnnTransport → ℕ → Hash256 → Hash256 → Result (Unit {0})
unfolding assert_hash256 ◌>>=◌
settle_hold_invoice t n hash preimage = do
  assert_hash256 hash
  assert_hash256 preimage
  t.settle_invoice n hash preimage

unfoldable pub cancel_hold_invoice : FnnTransport → ℕ → Hash256 → Result (Unit {0})
unfolding assert_hash256 ◌>>=◌
cancel_hold_invoice t n hash = do assert_hash256 hash; t.cancel_invoice n hash

-- `sendPayment`; its caller reads nothing of the handle that it returns.
unfoldable pub send_payment : FnnTransport → ℕ → String → ℤ → ℤ → Result (Unit {0})
unfolding encode_hex ◌>>=◌
send_payment t n invoice max_fee limit = do
  fee_hex ← encode_u128_hex max_fee
  limit_hex ← encode_u64_hex limit
  t.send_payment n
      (record { invoice = invoice; max_fee_amount = fee_hex; tlc_expiry_limit = limit_hex })

unfoldable pub fiber_adapter : FnnTransport → FiberAdapter
unfolding new_hold_invoice settle_hold_invoice cancel_hold_invoice send_payment
fiber_adapter t = record {
  new_hold_invoice = new_hold_invoice t;
  settle_hold_invoice = settle_hold_invoice t;
  cancel_hold_invoice = cancel_hold_invoice t;
  get_invoice_status = t.get_invoice;
  send_payment = send_payment t;
  get_payment = t.get_payment;
}

-- `PutCkbInvoiceStatus`, `PutPreimage`, or any other change.
pub data StoreChange : Type 0 where
  put_invoice_status : Hash256 → String → StoreChange
  put_preimage : Hash256 → Hash256 → StoreChange
  other_change : StoreChange

unfoldable pub invoice_kind : String → Option EventKind
invoice_kind status =
    if str_eq status "Received"
    then some incoming_held
    else if str_eq status "Paid"
    then some incoming_settled
    else if str_eq status "Cancelled" || str_eq status "Expired"
    then some incoming_cancelled
    else none

abbrev pub status_event : Hash256 → ℕ → Option EventKind → Option SwapLegEvent
status_event hash now none = none
status_event hash now (some kind) = some (plain_event fiber hash now kind)

unfoldable pub normalize_store_change : ℕ → StoreChange → Option SwapLegEvent
unfolding invoice_kind
normalize_store_change now (put_invoice_status hash status) =
    status_event hash now (invoice_kind status)
normalize_store_change now (put_preimage hash preimage) =
    some (record (plain_event fiber hash now outgoing_settled) { preimage = some preimage })
normalize_store_change now other_change = none

abbrev emitted : Option SwapLegEvent → Yields SwapLegEvent → Yields SwapLegEvent
emitted none later = later
emitted (some e) later = yields e later

-- `legEvents` over a transport with subscriptions, of the changes that come in, each with the time then.
unfoldable pub leg_events : List (ℕ × StoreChange) → Yields SwapLegEvent
unfolding normalize_store_change
leg_events [] = stopped
leg_events ((now, change) ∷ changes) =
    emitted (normalize_store_change now change) (leg_events changes)

abbrev pub is_last : Option String → String → Bool
is_last none status = false
is_last (some l) status = str_eq status l

-- `pollLegEvents` has its own copy of the kinds.
unfoldable pub polled_kind : String → Option EventKind
polled_kind status =
    if str_eq status "Received"
    then some incoming_held
    else if str_eq status "Paid"
    then some incoming_settled
    else if str_eq status "Cancelled" || str_eq status "Expired"
    then some incoming_cancelled
    else none

-- `pollLegEvents` of an incoming leg, and of an outgoing one: `last`, and what the node answers until
-- the poll is aborted, each with the time then.
abbrev polled_status : Hash256 → ℕ → Option EventKind → Yields SwapLegEvent → Yields SwapLegEvent
polled_status hash now none later = later
polled_status hash now (some kind) later =
    yields (plain_event fiber hash now kind) (if goes_on kind then later else returned)

unfoldable pub poll_incoming :
    Hash256 → Option String → List (ℕ × Result String) → Yields SwapLegEvent
unfolding polled_kind
poll_incoming hash last [] = stopped
poll_incoming hash last ((now, err e) ∷ answers) = thrown e
poll_incoming hash last ((now, ok status) ∷ answers) =
    let same = poll_incoming hash last answers in
    let later = poll_incoming hash (some status) answers in
    if is_last last status then same else polled_status hash now (polled_kind status) later

unfoldable pub polled_payment :
    Hash256 → ℕ → FiberPayment → Yields SwapLegEvent → Yields SwapLegEvent
polled_payment hash now p later =
    if str_eq p.status "Inflight"
    then yields (plain_event fiber hash now outgoing_in_flight) later
    else if str_eq p.status "Success"
    then yields (plain_event fiber hash now outgoing_settled) returned
    else if str_eq p.status "Failed"
    then yields
        (record (plain_event fiber hash now outgoing_failed) { failure_reason = p.failed_error })
        returned
    else later

unfoldable pub poll_outgoing :
    Hash256 → Option String → List (ℕ × Result FiberPayment) → Yields SwapLegEvent
unfolding polled_payment
poll_outgoing hash last [] = stopped
poll_outgoing hash last ((now, err e) ∷ answers) = thrown e
poll_outgoing hash last ((now, ok p) ∷ answers) =
    let same = poll_outgoing hash last answers in
    let later = poll_outgoing hash (some p.status) answers in
    if is_last last p.status then same else polled_payment hash now p later

-- `parseInvoice`: the hash, and the amount where there is one.
unfoldable pub parse_invoice : Result ParsedInvoice → Result (Hash256 × Option ℤ)
unfolding decode_hex ◌>>=◌
parse_invoice answer = do
  res ← answer
  elim res.amount [
    | none ↦ ok (res.payment_hash, none)
    | some hex ↦ do amount ← decode_u128_hex hex; ok (res.payment_hash, some amount)
  ]
