-- ===== src/Api/Stream.antt =====
-- `StreamHub.onOrderChanged` (bifrostd/src/api/stream.ts): the rejections that are remembered. The
-- sockets are I/O.
use bitfrost.Base.{
  ℕ, zero, suc, ◌≤◌, String, Bool, true, false, ◌||◌, Option, none, some, List, [], ◌∷◌, length,
  take, arith, if◌then◌else◌,
}
use bitfrost.Sdk.Types.{Order, ProtocolError, ErrorCode, expiry_invariant_violation}
use bitfrost.Orders.Marks.{is_refunding, is_failed}

pub record Rejection : Type 0 where
  pub order_id : String
  pub at : ℕ
  pub code : ErrorCode
  pub hint : String

abbrev is_expiry_violation : ErrorCode → Bool
is_expiry_violation expiry_invariant_violation = true
is_expiry_violation _ = false

abbrev hint_of : ProtocolError → Option String → String
hint_of f none = f.message
hint_of f (some hint) = hint

abbrev violation : Option ProtocolError → Option ProtocolError
violation none = none
violation (some f) = if is_expiry_violation f.code then some f else none

abbrev remember : Order → Option ProtocolError → List Rejection → List Rejection
remember o none rejections = rejections
remember o (some f) rejections = take 20 (
    record { order_id = o.order_id; at = o.updated_at; code = f.code; hint = hint_of f f.hint }
    ∷ rejections)

unfoldable pub on_order_changed : Order → List Rejection → List Rejection
on_order_changed o rejections =
    if is_refunding o.state || is_failed o.state
    then remember o (violation o.failure) rejections
    else rejections

length-take : (n : ℕ) (xs : List Rejection) → length (take n xs) ≤ n
length-take zero xs = omega arith
length-take (suc n) [] = omega arith
length-take (suc n) (x ∷ xs) = omega (arith, length-take n xs)

unfoldable pub after_changes : List Order → List Rejection → List Rejection
unfolding on_order_changed
after_changes [] rejections = rejections
after_changes (o ∷ os) rejections = after_changes os (on_order_changed o rejections)

remember-bounded :
    (o : Order) (f : Option ProtocolError) (rejections : List Rejection)
    → length rejections ≤ 20
    → length (remember o f rejections) ≤ 20
remember-bounded o none rejections h = h
remember-bounded o (some f) rejections h = length-take 20 (
    record { order_id = o.order_id; at = o.updated_at; code = f.code; hint = hint_of f f.hint }
    ∷ rejections)

either-bounded :
    (b : Bool) (xs ys : List Rejection)
    → length xs ≤ 20
    → length ys ≤ 20
    → length (if b then xs else ys) ≤ 20
either-bounded true xs ys hx hy = hx
either-bounded false xs ys hx hy = hy

on_order_changed-bounded :
    (o : Order) (rejections : List Rejection)
    → length rejections ≤ 20
    → length (on_order_changed o rejections) ≤ 20
unfolding on_order_changed
on_order_changed-bounded o rejections h =
    either-bounded (is_refunding o.state || is_failed o.state)
      (remember o (violation o.failure) rejections) rejections
      (remember-bounded o (violation o.failure) rejections h) h

-- However many orders change, at most 20 rejections are remembered.
pub rejections_bounded :
    (os : List Order) (rejections : List Rejection)
    → length rejections ≤ 20
    → length (after_changes os rejections) ≤ 20
unfolding after_changes
rejections_bounded [] rejections h = h
rejections_bounded (o ∷ os) rejections h =
    rejections_bounded os (on_order_changed o rejections) (on_order_changed-bounded o rejections h)
