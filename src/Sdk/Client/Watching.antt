-- ===== src/Sdk/Client/Watching.antt =====
-- What `watchOrder` of sdk/src/client.ts yields of a stream that repeats itself.
use bitfrost.Base.{
  ◌≡◌, refl, String, Bool, true, false, not, Option, none, some, List, [], ◌∷◌, str_eq, str_eq_iff,
  some_of, arith, Bool-cases, inl, inr, if◌then◌else◌,
}
use bitfrost.Sdk.Types.{Order, is_terminal}
use bitfrost.Sdk.Client.{StreamEvent, order_event, quote_expired_event, frame_key, watch_order}

-- Nothing follows an order that is terminal.
abbrev Ends : Bool → List Order → Type 0
Ends true os = os ≡ []
Ends false os = Unit

-- Each order is the one that is watched, has a key that is new, and is the last if it is terminal.
abbrev pub Delivered : String → List String → List Order → Type 0
Delivered id seen [] = Unit
Delivered id seen (o ∷ os) =
    (o.order_id ≡ id)
    × (some_of (str_eq (frame_key o)) seen ≡ false)
    × Ends (is_terminal o.state) os
    × Delivered id (frame_key o ∷ seen) os

either-Delivered :
    (id : String) (seen : List String) (b : Bool) (xs ys : List Order)
    → Delivered id seen xs
    → (b ≡ false → Delivered id seen ys)
    → Delivered id seen (if b then xs else ys)
either-Delivered id seen true xs ys hx hy = hx
either-Delivered id seen false xs ys hx hy = hy refl

yielded-Delivered :
    (id : String) (seen : List String) (o : Order) (rest : List Order)
    → o.order_id ≡ id
    → some_of (str_eq (frame_key o)) seen ≡ false
    → Delivered id (frame_key o ∷ seen) rest
    → Delivered id seen (if is_terminal o.state then o ∷ [] else o ∷ rest)
yielded-Delivered id seen o rest e new d = elim (Bool-cases (is_terminal o.state)) [
  | inl t ↦ rw t (e, new, rw t refl, tt)
  | inr t ↦ rw t (e, new, rw t tt, d)
]

-- Whatever frames the stream brings, repeated, malformed or of other orders, `watchOrder` yields only
-- the order that is watched, no two of its yields have the same id, time of update and state, and a
-- SUCCEEDED or FAILED order is the last that it yields.
pub watched-Delivered :
    (id : String) (seen : List String) (frames : List (Option StreamEvent))
    → Delivered id seen (watch_order id seen frames)
unfolding watch_order
watched-Delivered id seen [] = tt
watched-Delivered id seen (none ∷ frames) = watched-Delivered id seen frames
watched-Delivered id seen (some (quote_expired_event q) ∷ frames) = watched-Delivered id seen frames
watched-Delivered id seen (some (order_event o) ∷ frames) =
    either-Delivered id seen (not (str_eq o.order_id id)) _ _ (watched-Delivered id seen frames)
      λ same.
        either-Delivered id seen (some_of (str_eq (frame_key o)) seen) _ _
          (watched-Delivered id seen frames)
          λ new.
            yielded-Delivered id seen o _ ((str_eq_iff o.order_id id).0 (ground (arith, same))) new
              (watched-Delivered id (frame_key o ∷ seen) frames)
