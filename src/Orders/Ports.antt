-- ===== src/Orders/Ports.antt =====
-- The interface of bifrostd/src/orders/ports.ts, and the events of bifrostd/src/adapters/types.ts.
-- What a node answers is not the program's: an answer is a function of how many answers came
-- before it, so that a node may answer otherwise each time.
use bitfrost.Base.{ℕ, String, Option}
use bitfrost.Base.Int.{ℤ}
use bitfrost.Sdk.Types.{Network, Hash256, Thrown}

pub data Result {ℓ} (A : Type ℓ) : Type ℓ where
  ok : A → Result A
  err : Thrown → Result A

pub data HoldInvoiceState : Type 0 where
  open_invoice held settled cancelled unknown : HoldInvoiceState

pub data PaymentStatus : Type 0 where
  no_payment in_flight succeeded failed : PaymentStatus

pub record PaymentStateResult : Type 0 where
  pub status : PaymentStatus
  pub preimage : Option Hash256
  pub failure_reason : Option String

pub record HoldRequest : Type 0 where
  pub payment_hash : Hash256
  pub amount : ℤ
  pub tlc_expiry_delta_ms : ℤ
  pub description : String

pub record PayRequest : Type 0 where
  pub max_fee : ℤ
  pub tlc_expiry_limit_ms : ℤ

pub record HoldPort : Type 0 where
  pub create_hold_invoice : ℕ → HoldRequest → Result String
  pub settle : ℕ → Hash256 → Hash256 → Result (Unit {0})
  pub cancel : ℕ → Hash256 → Result (Unit {0})
  pub invoice_state : ℕ → Hash256 → Result HoldInvoiceState

pub record PayPort : Type 0 where
  pub pay : ℕ → String → PayRequest → Result (Unit {0})
  pub payment_state : ℕ → Hash256 → Result PaymentStateResult

pub record NetworkPorts : Type 0 where
  pub hold : HoldPort
  pub pay_port : PayPort

pub data EventKind : Type 0 where
  incoming_held incoming_settled incoming_cancelled : EventKind
  outgoing_in_flight outgoing_settled outgoing_failed : EventKind

pub record SwapLegEvent : Type 0 where
  pub network : Network
  pub payment_hash : Hash256
  pub kind : EventKind
  pub preimage : Option Hash256
  pub failure_reason : Option String
  pub observed_at : ℕ
