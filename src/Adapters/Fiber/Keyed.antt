-- ===== src/Adapters/Fiber/Keyed.antt =====
-- The hold invoices of `newHoldInvoice` (bifrostd/src/adapters/fiber.ts) behind the ports of the
-- engine.
use bitfrost.Base.{
  ◌≡◌, ℕ, String, Bool, true, Option, Bool-cases, inl, inr, arith, str_eq, str_eq_iff,
}
use bitfrost.Sdk.Types.{Hash256, CkbScript, Thrown}
use bitfrost.Orders.Ports.{ok, HoldRequest}
use bitfrost.Orders.Preimage.{is_hash256}
use bitfrost.Orders.Bindings.{fiber_ports}
use bitfrost.Rfq.Fallible.{◌>>=◌, passed}
use bitfrost.Fnn.{
  encode_u64_hex, encode_u128_hex, decode_u64_hex, decode_u128_hex, u64_max, u128_max,
}
use bitfrost.Fnn.RoundTrip.{decode-encode}
use bitfrost.Adapters.Events.{assert_hash256}
use bitfrost.Adapters.Fiber.{
  NewInvoiceResult, FnnTransport, invoice_params, address_of, new_hold_invoice, fiber_adapter,
}

-- How the node was asked for an invoice, and what it answered.
pub record KeyedHold (t : FnnTransport) (script : Option CkbScript) (n : ℕ) (r : HoldRequest)
    (address : String) : Type 0 where
  pub amount : String
  pub delta : String
  pub answer : NewInvoiceResult
  pub is_hash : is_hash256 r.payment_hash ≡ true
  pub amount_read : decode_u128_hex amount ≡ ok r.amount
  pub delta_read : decode_u64_hex delta ≡ ok r.tlc_expiry_delta_ms
  pub asked :
      t.new_invoice n (invoice_params t.currency r.payment_hash script r.description amount delta)
      ≡ ok answer
  pub echoed : answer.payment_hash ≡ r.payment_hash
  pub addressed : answer.invoice_address ≡ address

hash_asserted : (h : Hash256) → assert_hash256 h ≡ ok tt → is_hash256 h ≡ true
unfolding assert_hash256
hash_asserted h e = elim (Bool-cases (is_hash256 h)) [
  | inl yes_hash ↦ yes_hash
  | inr no_hash ↦ absurd (ground (arith, no_hash, e))
]

answer_echoed :
    (answer : NewInvoiceResult) (hash : Hash256) (address : String)
    → address_of answer hash ≡ ok address
    → (answer.payment_hash ≡ hash) × (answer.invoice_address ≡ address)
unfolding ◌>>=◌
answer_echoed answer hash address h = elim (Bool-cases (str_eq answer.payment_hash hash)) [
  | inl same ↦ ((str_eq_iff answer.payment_hash hash).0 same, ground (arith, same, h))
  | inr other ↦ absurd (ground (arith, other, h))
]

-- The engine takes no Fiber hold invoice that is not keyed to the hash it asked for: where its port
-- returns an address, the hash was well formed, the node was given that hash with the amount and the
-- expiry of the request in hexadecimal, and its answer echoed the hash.
pub hold_is_keyed :
    (is_not_found : Thrown → Bool) (t : FnnTransport) (script : Option CkbScript) (n : ℕ)
    (r : HoldRequest) (address : String)
    → (fiber_ports is_not_found (fiber_adapter t) script).hold.create_hold_invoice n r ≡ ok address
    → KeyedHold t script n r address
unfolding fiber_ports fiber_adapter new_hold_invoice
hold_is_keyed is_not_found t script n r address h =
    let (u, e1, h1) = passed (assert_hash256 r.payment_hash) _ h in
    let (amount, e2, h2) = passed (encode_u128_hex r.amount) _ h1 in
    let (delta, e3, h3) = passed (encode_u64_hex r.tlc_expiry_delta_ms) _ h2 in
    let (answer, e4, h4) =
      passed
        (t.new_invoice n
          (invoice_params t.currency r.payment_hash script r.description amount delta))
        (λ res. address_of res r.payment_hash) h3 in
    let (echo, addr) = answer_echoed answer r.payment_hash address h4 in
    record {
      amount = amount;
      delta = delta;
      answer = answer;
      is_hash = hash_asserted r.payment_hash e1;
      amount_read = decode-encode r.amount u128_max amount e2;
      delta_read = decode-encode r.tlc_expiry_delta_ms u64_max delta e3;
      asked = e4;
      echoed = echo;
      addressed = addr;
    }
