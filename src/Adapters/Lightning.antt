-- ===== src/Adapters/Lightning.antt =====
-- `LightningAdapter` (bifrostd/src/adapters/lightning.ts) over the calls of its transport. Each call is
-- told how many answers came before it; base64 is the runtime's.
pub mod Streams
pub mod Channels
use Prim.Native.String.{◌++◌ as append}
use bitfrost.Base.{
  ℕ, suc, String, Bool, true, false, not, ◌||◌, ◌&&◌, ◌==◌, Option, none, some, List, [], ◌∷◌,
  str_eq, truthy, if◌then◌else◌,
}
use bitfrost.Base.Codes.{codes, all_codes}
use bitfrost.Base.Int.{ℤ, pos, ltb_ℤ}
use bitfrost.Base.Decimal.{int_to_string, big_int}
use bitfrost.Sdk.Types.{Hash256, Thrown, lightning, adapter_error, syntax_error}
use bitfrost.Orders.Ports.{
  Result, ok, err, SwapLegEvent, EventKind, incoming_held, incoming_settled, incoming_cancelled,
  outgoing_in_flight, outgoing_settled, outgoing_failed,
}
use bitfrost.Orders.Bindings.{LightningAdapter, PaymentUpdate}
use bitfrost.Rfq.Fallible.{◌>>=◌, ◌>>◌, when, attempt}
use bitfrost.Adapters.Events.{
  Yields, returned, stopped, thrown, yields, assert_hash256, plain_event, goes_on,
}

pub record HoldInvoice : Type 0 where
  pub hash : String
  pub value : String
  pub cltv_expiry : String
  pub memo : String

pub record RouterSend : Type 0 where
  pub payment_request : String
  pub fee_limit_sat : String
  pub cltv_limit : ℤ

pub record RestPayment : Type 0 where
  pub status : String
  pub payment_preimage : Option String
  pub failure_reason : Option String

-- A frame of a stream: what it holds, or an error, which stands for a failure of the transport too.
pub data Frame (A : Type 0) : Type 0 where
  frame_error : Frame A
  frame_result : A → Frame A

pub record LndTransport : Type 0 where
  pub hex_to_base64 : String → String
  pub post_hodl : ℕ → HoldInvoice → Result String
  pub post_settle : ℕ → String → Result (Unit {0})
  pub post_cancel : ℕ → String → Result (Unit {0})
  pub get_state : ℕ → Hash256 → Result String
  pub stream_send : ℕ → RouterSend → List (Frame RestPayment)
  pub stream_track : ℕ → Hash256 → List (Frame RestPayment)

module _ {A : Type 0} where
  unfoldable pub unwrap : Frame A → Result A
  unwrap frame_error = err adapter_error
  unwrap (frame_result a) = ok a

unfoldable pub add_hold_invoice : LndTransport → ℕ → ℤ → Hash256 → ℤ → String → Result String
unfolding assert_hash256 int_to_string ◌>>=◌
add_hold_invoice t n amount hash cltv memo = do
  assert_hash256 hash
  when (ltb_ℤ amount (pos 0)) (err adapter_error)
  t.post_hodl n (record {
    hash = t.hex_to_base64 hash;
    value = int_to_string amount;
    cltv_expiry = int_to_string cltv;
    memo = memo;
  })

unfoldable pub settle_hold_invoice : LndTransport → ℕ → Hash256 → Result (Unit {0})
unfolding assert_hash256 ◌>>=◌
settle_hold_invoice t n preimage = do
  assert_hash256 preimage
  t.post_settle n (t.hex_to_base64 preimage)

unfoldable pub cancel_hold_invoice : LndTransport → ℕ → Hash256 → Result (Unit {0})
unfolding assert_hash256 ◌>>=◌
cancel_hold_invoice t n hash = do assert_hash256 hash; t.post_cancel n (t.hex_to_base64 hash)

unfoldable pub lookup_invoice : LndTransport → ℕ → Hash256 → Result String
unfolding assert_hash256 ◌>>=◌
lookup_invoice t n hash = do assert_hash256 hash; t.get_state n hash

-- The first frame decides.
unfoldable pub first_frame : List (Frame RestPayment) → Result (Unit {0})
unfolding unwrap ◌>>=◌
first_frame [] = err adapter_error
first_frame (f ∷ fs) = do p ← unwrap f; ok tt

-- `sendPayment`; its caller reads nothing of the handle that it returns.
unfoldable pub send_payment : LndTransport → ℕ → String → ℤ → ℤ → Result (Unit {0})
unfolding first_frame int_to_string
send_payment t n bolt11 max_fee limit = first_frame (
    t.stream_send n (record {
      payment_request = bolt11;
      fee_limit_sat = int_to_string max_fee;
      cltv_limit = limit;
    }))

-- `/^0+$/`, of a text that is not empty.
abbrev pub is_zeros : String → Bool
is_zeros s = all_codes (λ c. c == b'0') (codes s)

abbrev given_preimage : Option String → Option Hash256
given_preimage none = none
given_preimage (some s) = if is_zeros s then none else some (append "0x" s)

abbrev given_reason : Option String → Option String
given_reason none = none
given_reason (some s) = if str_eq s "FAILURE_REASON_NONE" then none else some s

unfoldable pub update_of : RestPayment → PaymentUpdate
update_of p = record {
  status = p.status;
  preimage = given_preimage (truthy p.payment_preimage);
  failure_reason = given_reason (truthy p.failure_reason);
}

abbrev is_final : String → Bool
is_final s = str_eq s "SUCCEEDED" || str_eq s "FAILED"

unfoldable pub track_frames : List (Frame RestPayment) → Yields PaymentUpdate
unfolding update_of
track_frames [] = stopped
track_frames (frame_error ∷ fs) = thrown adapter_error
track_frames (frame_result p ∷ fs) =
    yields (update_of p) (if is_final p.status then returned else track_frames fs)

abbrev asserted : {A : Type 0} → Result (Unit {0}) → Yields A → Yields A
asserted (ok u) y = y
asserted (err e) y = thrown e

unfoldable pub track_payment : Hash256 → List (Frame RestPayment) → Yields PaymentUpdate
unfolding assert_hash256 track_frames
track_payment hash frames = asserted (assert_hash256 hash) (track_frames frames)

-- The first update, as a consumer that stops there sees it.
abbrev first_update : Yields PaymentUpdate → Result (Option PaymentUpdate)
first_update returned = ok none
first_update stopped = ok none
first_update (thrown e) = err e
first_update (yields u rest) = ok (some u)

unfoldable pub lightning_adapter : LndTransport → LightningAdapter
unfolding add_hold_invoice settle_hold_invoice cancel_hold_invoice lookup_invoice send_payment
    track_payment
lightning_adapter t = record {
  add_hold_invoice = add_hold_invoice t;
  settle_hold_invoice = settle_hold_invoice t;
  cancel_hold_invoice = cancel_hold_invoice t;
  lookup_invoice = lookup_invoice t;
  send_payment = send_payment t;
  track_payment = λ n hash. first_update (track_payment hash (t.stream_track n hash));
}

unfoldable pub invoice_kind : String → Option EventKind
invoice_kind state =
    if str_eq state "ACCEPTED"
    then some incoming_held
    else if str_eq state "SETTLED"
    then some incoming_settled
    else if str_eq state "CANCELED"
    then some incoming_cancelled
    else none

abbrev invoice_event : Hash256 → ℕ → Option EventKind → Yields SwapLegEvent → Yields SwapLegEvent
invoice_event hash now none later = later
invoice_event hash now (some kind) later =
    yields (plain_event lightning hash now kind) (if goes_on kind then later else returned)

unfoldable pub invoice_events : Hash256 → List (ℕ × Frame String) → Yields SwapLegEvent
unfolding invoice_kind
invoice_events hash [] = stopped
invoice_events hash ((now, frame_error) ∷ fs) = thrown adapter_error
invoice_events hash ((now, frame_result state) ∷ fs) =
    invoice_event hash now (invoice_kind state) (invoice_events hash fs)

-- `legEvents` of an incoming leg, of the frames that come in, each with the time then.
unfoldable pub incoming_events : Hash256 → List (ℕ × Frame String) → Yields SwapLegEvent
unfolding assert_hash256 invoice_events
incoming_events hash frames = asserted (assert_hash256 hash) (invoice_events hash frames)

unfoldable pub update_event :
    Hash256 → ℕ → PaymentUpdate → Yields SwapLegEvent → Yields SwapLegEvent
update_event hash now u later =
    if str_eq u.status "IN_FLIGHT"
    then yields (plain_event lightning hash now outgoing_in_flight) later
    else if str_eq u.status "SUCCEEDED"
    then yields
        (record (plain_event lightning hash now outgoing_settled) { preimage = truthy u.preimage })
        returned
    else if str_eq u.status "FAILED"
    then yields
        (record (plain_event lightning hash now outgoing_failed) {
          failure_reason = truthy u.failure_reason;
        })
        returned
    else later

unfoldable pub payment_events : (ℕ → ℕ) → Hash256 → ℕ → Yields PaymentUpdate → Yields SwapLegEvent
unfolding update_event
payment_events clock hash n returned = returned
payment_events clock hash n stopped = stopped
payment_events clock hash n (thrown e) = thrown e
payment_events clock hash n (yields u rest) =
    update_event hash (clock n) u (payment_events clock hash (suc n) rest)

-- `legEvents` of an outgoing leg; `clock` tells the time of each update.
unfoldable pub outgoing_events : (ℕ → ℕ) → Hash256 → List (Frame RestPayment) → Yields SwapLegEvent
unfolding track_payment payment_events
outgoing_events clock hash frames = payment_events clock hash 0 (track_payment hash frames)
