-- ===== src/Orders/Bindings.antt =====
-- `fiberPorts` and `lightningPorts` (bifrostd/src/orders/ports.ts): the ports of the engine over the
-- adapters of the nodes. What the adapters answer, and `isNotFound`, are arguments.
use bitfrost.Base.{
  ◌≡◌, refl, ℕ, suc, ◌+◌, ◌*◌, ◌/◌, String, Bool, Option, none, some, str_eq, truthy, arith,
  if◌then◌else◌,
}
use bitfrost.Base.Int.{ℤ, pos, negsuc, minus, ◌≤ℤ◌}
use bitfrost.Sdk.Types.{Hash256, Thrown, CkbScript}
use bitfrost.Orders.Ports.{
  Result, ok, err, HoldInvoiceState, open_invoice, held, settled, cancelled, unknown, PaymentStatus,
  PaymentStateResult, NetworkPorts, HoldRequest, PayRequest,
}

-- What `fiberPorts` uses of the Fiber adapter; each call is told how many answers came before it.
pub record FiberPayment : Type 0 where
  pub status : String
  pub failed_error : Option String

pub record FiberAdapter : Type 0 where
  pub new_hold_invoice : ℕ → ℤ → Hash256 → ℤ → Option CkbScript → String → Result String
  pub settle_hold_invoice : ℕ → Hash256 → Hash256 → Result (Unit {0})
  pub cancel_hold_invoice : ℕ → Hash256 → Result (Unit {0})
  pub get_invoice_status : ℕ → Hash256 → Result String
  pub send_payment : ℕ → String → ℤ → ℤ → Result (Unit {0})
  pub get_payment : ℕ → Hash256 → Result FiberPayment

-- And `lightningPorts` of the Lightning adapter; of `trackPayment` it reads the first update.
pub record PaymentUpdate : Type 0 where
  pub status : String
  pub preimage : Option Hash256
  pub failure_reason : Option String

pub record LightningAdapter : Type 0 where
  pub add_hold_invoice : ℕ → ℤ → Hash256 → ℤ → String → Result String
  pub settle_hold_invoice : ℕ → Hash256 → Result (Unit {0})
  pub cancel_hold_invoice : ℕ → Hash256 → Result (Unit {0})
  pub lookup_invoice : ℕ → Hash256 → Result String
  pub send_payment : ℕ → String → ℤ → ℤ → Result (Unit {0})
  pub track_payment : ℕ → Hash256 → Result (Option PaymentUpdate)

unfoldable pub fiber_state : String → HoldInvoiceState
fiber_state s =
    if str_eq s "Open"
    then open_invoice
    else if str_eq s "Received"
    then held
    else if str_eq s "Paid"
    then settled
    else cancelled

unfoldable pub lightning_state : String → HoldInvoiceState
lightning_state s =
    if str_eq s "OPEN"
    then open_invoice
    else if str_eq s "ACCEPTED"
    then held
    else if str_eq s "SETTLED"
    then settled
    else cancelled

abbrev no_payment_yet : PaymentStateResult
no_payment_yet = record {
  status = PaymentStatus.no_payment;
  preimage = none;
  failure_reason = none;
}

unfoldable pub fiber_payment : FiberPayment → PaymentStateResult
fiber_payment p =
    if str_eq p.status "Failed"
    then record { status = PaymentStatus.failed; preimage = none; failure_reason = p.failed_error }
    else record {
      status =
          if str_eq p.status "Success" then PaymentStatus.succeeded else PaymentStatus.in_flight;
      preimage = none;
      failure_reason = none;
    }

unfoldable pub lightning_payment : Option PaymentUpdate → PaymentStateResult
lightning_payment none = no_payment_yet
lightning_payment (some u) =
    if str_eq u.status "SUCCEEDED"
    then record {
      status = PaymentStatus.succeeded;
      preimage = truthy u.preimage;
      failure_reason = none;
    }
    else (if str_eq u.status "FAILED"
        then record {
          status = PaymentStatus.failed;
          preimage = none;
          failure_reason = truthy u.failure_reason;
        }
        else record { status = PaymentStatus.in_flight; preimage = none; failure_reason = none })

-- `Math.ceil(ms / 300_000)` and `Math.floor(ms / 600_000)`, of a duration that may be negative.
unfoldable pub incoming_blocks : ℤ → ℤ
incoming_blocks (pos n) = pos ((n + 299_999) / 300_000)
incoming_blocks (negsuc n) = minus (suc n / 300_000)

unfoldable pub outgoing_blocks : ℤ → ℤ
outgoing_blocks (pos n) = pos (n / 600_000)
outgoing_blocks (negsuc n) = minus ((suc n + 599_999) / 600_000)

module _ {A B : Type 0} (is_not_found : Thrown → Bool) where
  -- An answer that is translated, and what stands for a node that does not know the hash.
  abbrev or_missing : (A → B) → B → Result A → Result B
  or_missing f missing (ok a) = ok (f a)
  or_missing f missing (err e) = if is_not_found e then ok missing else err e

module _ (is_not_found : Thrown → Bool) where
  unfoldable pub fiber_ports : FiberAdapter → Option CkbScript → NetworkPorts
  unfolding fiber_state fiber_payment
  fiber_ports a script = record {
    hold = record {
      create_hold_invoice = λ n r.
          a.new_hold_invoice n r.amount r.payment_hash r.tlc_expiry_delta_ms script r.description;
      settle = a.settle_hold_invoice;
      cancel = a.cancel_hold_invoice;
      invoice_state =
          λ n hash. or_missing is_not_found fiber_state unknown (a.get_invoice_status n hash);
    };
    pay_port = record {
      pay = λ n invoice p. a.send_payment n invoice p.max_fee p.tlc_expiry_limit_ms;
      payment_state =
          λ n hash. or_missing is_not_found fiber_payment no_payment_yet (a.get_payment n hash);
    };
  }

  unfoldable pub lightning_ports : LightningAdapter → NetworkPorts
  unfolding lightning_state lightning_payment incoming_blocks outgoing_blocks
  lightning_ports a = record {
    hold = record {
      create_hold_invoice = λ n r.
          a.add_hold_invoice n r.amount r.payment_hash (incoming_blocks r.tlc_expiry_delta_ms)
            r.description;
      settle = λ n hash preimage. a.settle_hold_invoice n preimage;
      cancel = a.cancel_hold_invoice;
      invoice_state =
          λ n hash. or_missing is_not_found lightning_state unknown (a.lookup_invoice n hash);
    };
    pay_port = record {
      pay =
          λ n invoice p. a.send_payment n invoice p.max_fee (outgoing_blocks p.tlc_expiry_limit_ms);
      payment_state = λ n hash.
          or_missing is_not_found lightning_payment no_payment_yet (a.track_payment n hash);
    };
  }

-- Blocks, counted with a time per block.
abbrev pub lasting : ℕ → ℤ → ℤ
lasting per_block (pos n) = pos (n * per_block)
lasting per_block (negsuc n) = minus (suc n * per_block)

incoming_blocks_last : (ms : ℤ) → ms ≤ℤ lasting 300_000 (incoming_blocks ms)
unfolding incoming_blocks
incoming_blocks_last (pos n) = omega arith
incoming_blocks_last (negsuc n) = ground arith

outgoing_blocks_last : (ms : ℤ) → lasting 600_000 (outgoing_blocks ms) ≤ℤ ms
unfolding outgoing_blocks
outgoing_blocks_last (pos n) = omega arith
outgoing_blocks_last (negsuc n) = ground arith

-- The Lightning bindings err on the safe side. What the engine's port asks of the adapter is a hold of
-- the same amount and hash for a number of blocks that, when blocks take 5 minutes, last at least as
-- long as the engine asked for; and a payment of the same invoice with the same fee limit, over routes
-- of a number of blocks that, when blocks take 10 minutes, last at most as long as it allowed.
pub lightning_blocks_conservative :
    (is_not_found : Thrown → Bool) (a : LightningAdapter) (n : ℕ) (r : HoldRequest)
    (invoice : String) (p : PayRequest)
    → ((blocks : ℤ) × ((lightning_ports is_not_found a).hold.create_hold_invoice n r
          ≡ a.add_hold_invoice n r.amount r.payment_hash blocks r.description)
        × (r.tlc_expiry_delta_ms ≤ℤ lasting 300_000 blocks))
      × ((blocks : ℤ) × ((lightning_ports is_not_found a).pay_port.pay n invoice p
            ≡ a.send_payment n invoice p.max_fee blocks)
          × (lasting 600_000 blocks ≤ℤ p.tlc_expiry_limit_ms))
unfolding lightning_ports
lightning_blocks_conservative is_not_found a n r invoice p = (
  (incoming_blocks r.tlc_expiry_delta_ms, refl, incoming_blocks_last r.tlc_expiry_delta_ms),
  (outgoing_blocks p.tlc_expiry_limit_ms, refl, outgoing_blocks_last p.tlc_expiry_limit_ms),
)
