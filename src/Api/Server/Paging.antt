-- ===== src/Api/Server/Paging.antt =====
-- GET /v1/orders of bifrostd/src/api/server.ts: the orders of a state, a page at a time. `Number` is
-- meant for the texts of integers, and any other text counts as NaN.
pub mod Walk
use bitfrost.Base.{
  ℕ, zero, suc, ◌+◌, ◌-◌, String, Bool, true, false, Option, none, some, List, [], ◌∷◌, min, length,
  take, drop, select, str_eq, truthy, if◌then◌else◌,
}
use bitfrost.Base.Int.{ℤ, pos, negsuc, ltb_ℤ, ◌+ℤ◌}
use bitfrost.Base.Decimal.{big_int, int_to_string}
use bitfrost.Sdk.Types.{
  Order, OrderState, pending, incoming_held, outgoing_in_flight, outgoing_settled, succeeded,
  refunding, internal, state_text,
}
use bitfrost.Orders.Store
use bitfrost.Orders.Store.{Store}
use bitfrost.Api.Server.{OrdersPage, Response, answer, envelope, page_body}

abbrev pub page_limit : ℕ
page_limit = 50

-- `ORDER_STATES` (bifrostd/src/api/contract.ts).
abbrev order_states : List OrderState
order_states =
    pending ∷ incoming_held ∷ outgoing_in_flight ∷ outgoing_settled ∷ succeeded ∷ refunding
    ∷ OrderState.failed ∷ []

abbrev knows_state : String → List OrderState → Bool
knows_state text [] = false
knows_state text (s ∷ ss) = if str_eq (state_text s) text then true else knows_state text ss

abbrev or_zero : Option ℤ → ℤ
or_zero none = pos 0
or_zero (some n) = n

-- `Number(url.searchParams.get("cursor") ?? "0") || 0`.
abbrev offset_of : Option String → ℤ
offset_of none = pos 0
offset_of (some text) = or_zero (big_int text)

abbrev clamp_limit : Option ℤ → ℕ
clamp_limit (some (pos (suc n))) = min (suc n) page_limit
clamp_limit _ = page_limit

abbrev limit_of : Option String → ℕ
limit_of none = page_limit
limit_of (some text) = clamp_limit (big_int text)

-- `slice`, which counts a negative position from the end.
abbrev place : ℕ → ℤ → ℕ
place len (pos n) = min n len
place len (negsuc n) = len - suc n

abbrev slice : List Order → ℤ → ℤ → List Order
slice os a b = take (place (length os) b - place (length os) a) (drop (place (length os) a) os)

abbrev page_at : List Order → ℤ → ℕ → OrdersPage
page_at os offset size = record {
  orders = slice os offset (offset +ℤ pos size);
  cursor =
      if ltb_ℤ (offset +ℤ pos size) (pos (length os))
      then some (int_to_string (offset +ℤ pos size))
      else none;
}

unfoldable pub page : Option String → Option String → List Order → OrdersPage
unfolding big_int int_to_string ◌+ℤ◌
page cursor limit os = page_at os (offset_of cursor) (limit_of limit)

abbrev in_state : String → Order → Bool
in_state text o = str_eq (state_text o.state) text

abbrev listed : Option String → Option String → Option String → Store → Response
listed none cursor limit s = answer (page_body (page cursor limit (Store.list s)))
listed (some text) cursor limit s =
    if knows_state text order_states
    then answer (page_body (page cursor limit (select (in_state text) (Store.list s))))
    else envelope 400 internal "unknown state"

unfoldable pub list_orders : Option String → Option String → Option String → Store → Response
unfolding page Store.list state_text
list_orders state cursor limit s = listed (truthy state) cursor limit s
