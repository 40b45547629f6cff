-- ===== src/Orders/Store/Recovery.antt =====
-- What `replay` rebuilds from the file (bifrostd/src/orders/store.ts).
use bitfrost.Base.{
  ◌++◌, ◌≡◌, refl, sym, ap, ◌∙◌, String, Option, none, some, List, [], ◌∷◌, arith, Option-cases,
  inl, inr,
}
use mathlib.Core.List.{append_assoc}
use bitfrost.Base.Dict
use bitfrost.Sdk.Types.{Order, OrderState}
use bitfrost.Orders.Store.{
  LogLine, create_line, update_line, Piece, json, fragment, newline, Index, Store, Line, blank,
  garbled, whole, read, replay_line, replay_from, replay, created, updated, transition, persist,
  open_store,
}

-- What the last line of the file holds, after the newlines.
abbrev pub last_line : Line → List Piece → Line
last_line line [] = line
last_line line (json l ∷ ps) = last_line (read line l) ps
last_line line (fragment ∷ ps) = last_line garbled ps
last_line line (newline ∷ ps) = last_line blank ps

-- The file ends behind a newline, and replays to the maps in memory.
pub record IsDurable (s : Store) : Type 0 where
  pub complete : last_line blank s.file ≡ blank
  pub replayed : replay s.file ≡ s.index

replay_from-append :
    (ps : List Piece) (line : Line) (l : LogLine) (x : Index)
    → last_line line ps ≡ blank
    → replay_from line (ps ++ json l ∷ newline ∷ []) x
      ≡ replay_line (whole l) (replay_from line ps x)
unfolding replay_from
replay_from-append [] blank l x h = refl
replay_from-append [] garbled l x h = absurd (cc)
replay_from-append [] (whole k) l x h = absurd (cc)
replay_from-append (json k ∷ ps) line l x h = replay_from-append ps (read line k) l x h
replay_from-append (fragment ∷ ps) line l x h = replay_from-append ps garbled l x h
replay_from-append (newline ∷ ps) line l x h = replay_from-append ps blank l (replay_line line x) h

last_line-append :
    (ps : List Piece) (line : Line) (l : LogLine)
    → last_line line (ps ++ json l ∷ newline ∷ []) ≡ blank
last_line-append [] line l = refl
last_line-append (json k ∷ ps) line l = last_line-append ps (read line k) l
last_line-append (fragment ∷ ps) line l = last_line-append ps garbled l
last_line-append (newline ∷ ps) line l = last_line-append ps blank l

pub persist-replay :
    (l : LogLine) (s : Store)
    → IsDurable s
    → (last_line blank (persist l s.file) ≡ blank)
      × (replay (persist l s.file) ≡ replay_line (whole l) s.index)
unfolding persist replay
persist-replay l s d = (
  last_line-append s.file blank l,
  replay_from-append s.file blank l _ d.complete ∙ ap (replay_line (whole l)) d.replayed,
)

-- An update whose new value keeps the order's id leaves a file that replays to the new maps.
pub updated-IsDurable :
    (id : String) (from : OrderState) (next : Order) (detail : Option String) (s : Store)
    → next.order_id ≡ id
    → IsDurable s
    → IsDurable (updated id from next detail s)
unfolding updated
updated-IsDurable id from next detail s e d =
    let (c, r) = persist-replay (update_line next next.updated_at detail from) s d in
    record { complete = c; replayed = r ∙ unfold replay_line in rw e refl }

-- A created order has no history, so the file replays to the new maps.
pub created-IsDurable :
    (o : Order) (s : Store)
    → Dict.get o.order_id s.log ≡ none
    → IsDurable s
    → IsDurable (created o s)
unfolding created
created-IsDurable o s e d =
    let (c, r) = persist-replay (create_line o o.created_at) s d in
    record { complete = c; replayed = r ∙ unfold replay_line in rw e refl }

fragment_loses :
    (ps : List Piece) (line : Line) (l : LogLine) (x : Index)
    → replay_from line (ps ++ fragment ∷ json l ∷ newline ∷ []) x
      ≡ replay_from line (ps ++ fragment ∷ []) x
unfolding replay_from
fragment_loses [] line l x = refl
fragment_loses (json k ∷ ps) line l x = fragment_loses ps (read line k) l x
fragment_loses (fragment ∷ ps) line l x = fragment_loses ps garbled l x
fragment_loses (newline ∷ ps) line l x = fragment_loses ps blank l (replay_line line x)

fragment_ignored :
    (ps : List Piece) (line : Line) (x : Index)
    → last_line line ps ≡ blank
    → replay_from line (ps ++ fragment ∷ []) x ≡ replay_from line ps x
unfolding replay_from
fragment_ignored [] blank x h = refl
fragment_ignored [] garbled x h = absurd (cc)
fragment_ignored [] (whole k) x h = absurd (cc)
fragment_ignored (json k ∷ ps) line x h = fragment_ignored ps (read line k) x h
fragment_ignored (fragment ∷ ps) line x h = fragment_ignored ps garbled x h
fragment_ignored (newline ∷ ps) line x h = fragment_ignored ps blank (replay_line line x) h

replay_from-unended :
    (ps : List Piece) (line : Line) (l : LogLine) (x : Index)
    → last_line line ps ≡ blank
    → replay_from line (ps ++ json l ∷ []) x ≡ replay_line (whole l) (replay_from line ps x)
unfolding replay_from
replay_from-unended [] blank l x h = refl
replay_from-unended [] garbled l x h = absurd (cc)
replay_from-unended [] (whole k) l x h = absurd (cc)
replay_from-unended (json k ∷ ps) line l x h = replay_from-unended ps (read line k) l x h
replay_from-unended (fragment ∷ ps) line l x h = replay_from-unended ps garbled l x h
replay_from-unended (newline ∷ ps) line l x h =
    replay_from-unended ps blank l (replay_line line x) h

-- A write that a crash cut short counts wholly or not at all, where the file replayed to the maps
-- before it: if what was written does not parse, the reopened store has the maps from before it, and
-- if all but the newline was written, those that it would have with the newline.
pub torn_write_all_or_nothing :
    (s : Store) (l : LogLine)
    → IsDurable s
    → ((open_store (s.file ++ fragment ∷ [])).index ≡ s.index)
      × ((open_store (s.file ++ json l ∷ [])).index ≡ (open_store (persist l s.file)).index)
unfolding open_store replay
torn_write_all_or_nothing s l d = (
  fragment_ignored s.file blank _ d.complete ∙ d.replayed,
  replay_from-unended s.file blank l _ d.complete
      ∙ ap (replay_line (whole l)) d.replayed
      ∙ sym (unfold replay in (persist-replay l s d).1),
)

transition-updated :
    (id : String) (mutate : Order → Order) (detail : Option String) (s : Store) {o : Order}
    {t : Store}
    → transition id mutate detail s ≡ some (o, t)
    → (from : OrderState) × (t ≡ updated id from o detail s)
unfolding transition
transition-updated id mutate detail s h = elim (Option-cases (Dict.get id s.orders)) [
  | inl e ↦ ground arith
  | inr (c, e) ↦ (c.state, ground arith)
]

-- Where the file replayed to the maps: after a crash mid-write and a restart, the next recorded
-- transition shares its line with the fragment: the following restart has the maps from before the
-- crash, and the transition is lost.
pub torn_write_loses_next :
    (s : Store) (id : String) (mutate : Order → Order) (detail : Option String) {o : Order}
    {t : Store}
    → IsDurable s
    → transition id mutate detail (open_store (s.file ++ fragment ∷ [])) ≡ some (o, t)
    → (open_store t.file).index ≡ s.index
unfolding open_store replay updated persist
torn_write_loses_next s id mutate detail {o} d h =
    let (from, e) = transition-updated id mutate detail (open_store (s.file ++ fragment ∷ [])) h in
    rw e (
      rw append_assoc (
        fragment_loses s.file blank (update_line o o.updated_at detail from) _
        ∙ fragment_ignored s.file blank _ d.complete
        ∙ d.replayed))
