-- ===== src/Api/Server/Routes/Reading.antt =====
-- Which requests reach which handler, and what they may change (bifrostd/src/api/server.ts,
-- contract.ts).
use Prim.Native.Char.{code}
use Prim.Native.String.{◌++◌ as append}
use mathlib.Core.Path.{subst}
use text.Mathlib.TextLemmas.{nil-append, cons-append, append-nil}
use bitfrost.Base.{
  ℕ, ◌==◌, ◌≡◌, refl, ap, String, Bool, true, false, Option, none, some, List, [], ◌∷◌, ◌++◌, ◌||◌,
  ◌&&◌, leb, str_eq, str_eq_ne, str_eq_refl, arith, Bool-cases, inl, inr, if◌then◌else◌,
}
use bitfrost.Base.Codes.{codes, codes-append, starts_with, all_codes, is_digit}
use bitfrost.Api.Server.{Hub}
use bitfrost.Api.Server.Routes.{
  Route, order_route, cancel_route, order_by_id, cancel_order_path, after, cut_slash, order_match,
  fixed_get, or_route, route_get, route_post, route, Request, Served, serve_route, serve,
}

module _ (s : Served) (req : Request) where
  -- A route that leaves the orders and the nodes alone.
  abbrev Reads : Route → Type 0
  Reads r = (hub : Hub) → (serve_route s req r hub).1.world ≡ hub.world

  either-Reads : (b : Bool) (p q : Route) → Reads p → Reads q → Reads (if b then p else q)
  either-Reads true p q hp hq = hp
  either-Reads false p q hp hq = hq

  or_route-Reads :
      (found : Option String) (r : Route) → Reads r → Reads (or_route order_route found r)
  unfolding serve_route
  or_route-Reads none r h = h
  or_route-Reads (some id) r h = λ hub. refl

  route_get-Reads : (path : String) → Reads (route_get path)
  unfolding serve_route
  route_get-Reads path =
      either-Reads (str_eq path "/v1/demo/invoice") _ _ (λ hub. refl)
        (either-Reads (str_eq path "/v1/orders") _ _ (λ hub. refl)
          (or_route-Reads (order_match "" path) (fixed_get path) (
            either-Reads (str_eq path "/v1/inventory") _ _ (λ hub. refl)
              (either-Reads (str_eq path "/v1/health") _ _ (λ hub. refl)
                (either-Reads (str_eq path "/v1/quotes/stats") _ _ (λ hub. refl) (λ hub. refl))))))

  -- A GET request, whatever its url and its parameters, changes no order and calls neither node for
  -- one: the engine's state is the same after it.
  pub get_changes_no_order :
      (hub : Hub) → req.method ≡ "GET" → (serve s req hub).1.world ≡ hub.world
  unfolding serve route str_eq
  get_changes_no_order hub h = rw h (route_get-Reads (s.pathname req.url) hub)

same_code : (n : ℕ) → n == n ≡ true
same_code n = ground arith

after-append : (p s : String) → after (codes p) (append p s) ≡ some s
after-append String.[] s = ap some (nil-append s)
after-append (String.◌∷◌ c p) s = rw (cons-append c p s, same_code (code c)) (after-append p s)

starts_with-append : (p s : List ℕ) → starts_with p (p ++ s) ≡ true
starts_with-append [] s = refl
starts_with-append (c ∷ p) s = rw (same_code c) (starts_with-append p s)

-- A text with a prefix differs from one without it.
prefix_differs :
    (p s t : String) → starts_with (codes p) (codes t) ≡ false → str_eq (append p s) t ≡ false
prefix_differs p s t h = str_eq_ne (append p s) t λ e.
    let same : starts_with (codes p) (codes t) ≡ true =
      rw (← e, codes-append p s) (starts_with-append (codes p) (codes s)) in
    cc (same, h)

abbrev has_slash : String → Bool
has_slash String.[] = false
has_slash (String.◌∷◌ c s) = if code c == b'/' then true else has_slash s

-- `[A-Za-z0-9_-]`: `new URL` keeps these as they are, and no dot segment is made of them.
abbrev is_word_code : ℕ → Bool
is_word_code c =
    is_digit c || leb b'A' c && leb c b'Z' || leb b'a' c && leb c b'z' || c == b'_' || c == b'-'

abbrev is_path_code : ℕ → Bool
is_path_code c = is_word_code c || c == b'/'

-- A path under /v1/ that `new URL` leaves as it is.
abbrev pub IsPlainPath : String → Type 0
IsPlainPath path =
    (starts_with (codes "/v1/") (codes path) ≡ true) × (all_codes is_path_code (codes path) ≡ true)

-- An id as the paths can carry it: not empty, and made of such characters.
abbrev pub IsPathSegment : String → Type 0
IsPathSegment id = (str_eq id "" ≡ false) × (all_codes is_word_code (codes id) ≡ true)

segment_no_slash : (id : String) → all_codes is_word_code (codes id) ≡ true → has_slash id ≡ false
segment_no_slash String.[] h = refl
segment_no_slash (String.◌∷◌ c s) h = elim (Bool-cases (code c == b'/')) [
  | inl e ↦ absurd (ground (arith, e, h))
  | inr e ↦ rw e (segment_no_slash s (ground (arith, h)))
]

all_codes-append :
    (xs ys : List ℕ)
    → all_codes is_word_code xs ≡ true
    → all_codes is_path_code ys ≡ true
    → all_codes is_path_code (xs ++ ys) ≡ true
all_codes-append [] ys h k = k
all_codes-append (x ∷ xs) ys h k =
    let first : is_word_code x ≡ true = ground (arith, h) in
    let rest = all_codes-append xs ys (ground (arith, h)) k in rw (first, rest) refl

-- The paths of an id are plain, with "" and with "/cancel" at the end.
order_path-IsPlainPath :
    (id end : String)
    → all_codes is_word_code (codes id) ≡ true
    → all_codes is_path_code (codes end) ≡ true
    → IsPlainPath (append "/v1/orders/" (append id end))
order_path-IsPlainPath id end h k =
    rw (codes-append "/v1/orders/" (append id end), codes-append id end)
      (refl, all_codes-append (codes id) (codes end) h k)

cut_slash_none : (id : String) → has_slash id ≡ false → cut_slash id ≡ (id, "")
cut_slash_none String.[] h = refl
cut_slash_none (String.◌∷◌ c s) h = elim (Bool-cases (code c == b'/')) [
  | inl e ↦ absurd (ground (arith, e, h))
  | inr e ↦ rw (e, cut_slash_none s (ground (arith, e, h))) refl
]

cut_slash_cancel :
    (id : String) → has_slash id ≡ false → cut_slash (append id "/cancel") ≡ (id, "/cancel")
cut_slash_cancel String.[] h = rw (nil-append "/cancel") refl
cut_slash_cancel (String.◌∷◌ c s) h = elim (Bool-cases (code c == b'/')) [
  | inl e ↦ absurd (ground (arith, e, h))
  | inr e ↦ rw (cons-append c s "/cancel", e, cut_slash_cancel s (ground (arith, e, h))) refl
]

get_order_path : (id : String) → IsPathSegment id → route_get (order_by_id id) ≡ order_route id
unfolding order_match
get_order_path id (full, word) =
    let plain = segment_no_slash id word in
    rw
      (
        prefix_differs "/v1/orders/" id "/v1/demo/invoice" refl,
        prefix_differs "/v1/orders/" id "/v1/orders" refl,
        after-append "/v1/orders/" id,
        cut_slash_none id plain,
        str_eq_refl "",
        full,
      )
      refl

cancel_post_path :
    (id : String) → IsPathSegment id → route_post (cancel_order_path id) ≡ cancel_route id
unfolding order_match
cancel_post_path id (full, word) =
    let plain = segment_no_slash id word in
    rw
      (
        prefix_differs "/v1/orders/" (append id "/cancel") "/v1/quotes" refl,
        prefix_differs "/v1/orders/" (append id "/cancel") "/v1/orders" refl,
        prefix_differs "/v1/orders/" (append id "/cancel") "/v1/demo/pay" refl,
        after-append "/v1/orders/" (append id "/cancel"),
        cut_slash_cancel id plain,
        str_eq_refl "/cancel",
        full,
      )
      refl

id_path-IsPlainPath :
    (id : String) → all_codes is_word_code (codes id) ≡ true → IsPlainPath (order_by_id id)
id_path-IsPlainPath id h =
    subst (λ x. IsPlainPath (append "/v1/orders/" x)) (append-nil id)
      (order_path-IsPlainPath id "" h refl)

-- The url that `ENDPOINTS.orderById` makes for an id reaches the handler of that order by GET, and the
-- one of `ENDPOINTS.cancelOrder` the cancellation of that order by POST, for an id of letters, digits,
-- "_" and "-" that is not empty. It is assumed that `new URL` keeps a plain path as it is.
pub order_endpoints :
    (pathname : String → String) (id : String)
    → ((path : String) → IsPlainPath path → pathname path ≡ path)
    → IsPathSegment id
    → (route "GET" (pathname (order_by_id id)) ≡ order_route id)
      × (route "POST" (pathname (cancel_order_path id)) ≡ cancel_route id)
unfolding route str_eq
order_endpoints pathname id keeps h =
    rw
      (
        keeps (order_by_id id) (id_path-IsPlainPath id h.1),
        keeps (cancel_order_path id) (order_path-IsPlainPath id "/cancel" h.1 refl),
      )
      (get_order_path id h, cancel_post_path id h)
