-- ===== src/Orders/Store.antt =====
-- bifrostd/src/orders/store.ts. The maps are `Index`; the file is the sequence of what was written
-- to it: whole JSON records, newlines, and a fragment that does not parse, where a crash cut a write short.
-- `structuredClone` and `fsync` have no counterpart: values are not shared, and a write that returns
-- has reached the disk.
pub mod Keys
pub mod Recovery
use bitfrost.Base.{
  ℕ, ◌++◌, String, Bool, true, false, not, Option, none, some, List, [], ◌∷◌, leb, truthy,
  if◌then◌else◌, select,
}
use bitfrost.Base.Dict
use bitfrost.Base.Dict.{Dict}
use bitfrost.Sdk.Types.{Order, OrderState, is_terminal}

pub record OrderEvent : Type 0 where
  pub order_id : String
  pub at : ℕ
  pub from_state : Option OrderState
  pub to_state : OrderState
  pub detail : Option String

pub data LogLine : Type 0 where
  create_line : Order → ℕ → LogLine
  update_line : Order → ℕ → Option String → OrderState → LogLine

pub data Piece : Type 0 where
  json : LogLine → Piece
  fragment newline : Piece

pub record Index : Type 0 where
  pub orders : Dict Order
  pub by_hash : Dict String
  pub log : Dict (List OrderEvent)

pub record Store : Type 0 where
  pub index : Index
  pub open index use *
  pub file : List Piece

abbrev pub or_empty {ℓ} : {A : Type ℓ} → Option (List A) → List A
or_empty none = []
or_empty (some xs) = xs

-- `${JSON.stringify(line)}\n`, appended.
unfoldable pub persist : LogLine → List Piece → List Piece
persist line file = file ++ json line ∷ newline ∷ []

-- Both maps learn the order.
unfoldable pub with_order : Order → Index → Index
with_order o x = record x {
  orders = Dict.set o.order_id o x.orders;
  by_hash = Dict.set o.payment_hash o.order_id x.by_hash;
}

unfoldable pub push_event : String → OrderEvent → Index → Index
push_event id ev x = record x { log = Dict.set id (or_empty (Dict.get id x.log) ++ ev ∷ []) x.log }

unfoldable pub created : Order → Store → Store
unfolding persist with_order
created o s = record {
  index = record (with_order o s.index) {
    log =
        Dict.set o.order_id
          (record {
            order_id = o.order_id;
            at = o.created_at;
            from_state = none;
            to_state = o.state;
            detail = none;
          }
            ∷ [])
          s.log;
  };
  file = persist (create_line o o.created_at) s.file;
}

-- `none` is the error on a duplicate order id or payment hash.
unfoldable pub create : Order → Store → Option Store
unfolding created
create o s =
    if Dict.has o.order_id s.orders
    then none
    else if Dict.has o.payment_hash s.by_hash
    then none
    else some (created o s)

unfoldable pub updated : String → OrderState → Order → Option String → Store → Store
unfolding persist with_order push_event
updated id from next detail s = record {
  index =
      push_event id
        (record {
          order_id = id;
          at = next.updated_at;
          from_state = some from;
          to_state = next.state;
          detail = detail;
        })
        (with_order next s.index);
  file = persist (update_line next next.updated_at detail from) s.file;
}

-- `none` is the error on an unknown order.
unfoldable pub transition :
    String → (Order → Order) → Option String → Store → Option (Order × Store)
unfolding updated
transition id mutate detail s = elim (Dict.get id s.orders) [
  | none ↦ none
  | some current ↦ some (mutate current, updated id current.state (mutate current) detail s)
]

abbrev pub find : String → Store → Option Order
find id s = Dict.get id s.orders

abbrev follow : Option String → Store → Option Order
follow none s = none
follow (some id) s = find id s

-- An empty id counts as none.
unfoldable pub get_by_hash : String → Store → Option Order
get_by_hash hash s = follow (truthy (Dict.get hash s.by_hash)) s

unfoldable pub list_non_terminal : Store → List Order
list_non_terminal s = select (λ o. not (is_terminal o.state)) (Dict.values s.orders)

-- The stable sort by `b.createdAt - a.createdAt`: an order goes before the later ones of its list
-- that are not newer.
insert_newest : Order → List Order → List Order
insert_newest o [] = o ∷ []
insert_newest o (p ∷ ps) =
    if leb p.created_at o.created_at then o ∷ p ∷ ps else p ∷ insert_newest o ps

sort_newest : List Order → List Order
unfolding insert_newest
sort_newest [] = []
sort_newest (o ∷ os) = insert_newest o (sort_newest os)

unfoldable pub list : Store → List Order
unfolding sort_newest
list s = sort_newest (Dict.values s.orders)

unfoldable pub events : String → Store → List OrderEvent
events id s = or_empty (Dict.get id s.log)

-- What a line of the file holds so far.
pub data Line : Type 0 where
  blank garbled : Line
  whole : LogLine → Line

abbrev order_of : LogLine → Order
order_of (create_line o at) = o
order_of (update_line o at detail from) = o

abbrev event_of : LogLine → OrderEvent
event_of (create_line o at) = record {
  order_id = o.order_id;
  at = at;
  from_state = none;
  to_state = o.state;
  detail = none;
}
event_of (update_line o at detail from) = record {
  order_id = o.order_id;
  at = at;
  from_state = some from;
  to_state = o.state;
  detail = detail;
}

-- One round of the loop in `replay`: a line that does not parse is passed over.
unfoldable pub replay_line : Line → Index → Index
unfolding with_order push_event
replay_line blank x = x
replay_line garbled x = x
replay_line (whole l) x = push_event (order_of l).order_id (event_of l) (with_order (order_of l) x)

abbrev read : Line → LogLine → Line
read blank l = whole l
read garbled l = garbled
read (whole k) l = garbled

-- The file cut at its newlines, and each line replayed.
unfoldable pub replay_from : Line → List Piece → Index → Index
unfolding replay_line
replay_from line [] x = replay_line line x
replay_from line (json l ∷ ps) x = replay_from (read line l) ps x
replay_from line (fragment ∷ ps) x = replay_from garbled ps x
replay_from line (newline ∷ ps) x = replay_from blank ps (replay_line line x)

abbrev pub no_orders : Index
no_orders = record { orders = []; by_hash = []; log = [] }

unfoldable pub replay : List Piece → Index
unfolding replay_from
replay file = replay_from blank file no_orders

-- The constructor of `FileOrderStore`.
unfoldable pub open_store : List Piece → Store
unfolding replay
open_store file = record { index = replay file; file = file }
