-- ===== src/Api/Server/Paging/Walk.antt =====
-- Pages of GET /v1/orders (bifrostd/src/api/server.ts), followed by their cursors.
use bitfrost.Base.{
  ℕ, zero, suc, ◌+◌, ◌-◌, ◌≤◌, ◌<◌, ◌≡◌, refl, ap, ◌∙◌, sym, String, true, false, Option, none,
  some, List, [], ◌∷◌, ◌++◌, min, length, take, drop, arith, Bool-cases, inl, inr, ltb,
}
use bitfrost.Base.Int.{ℤ, pos, negsuc, ltb_ℤ, ◌+ℤ◌}
use bitfrost.Base.Decimal.{big_int, to_string, int_to_string}
use bitfrost.Base.Decimal.RoundTrip.{big_int-to_string}
use bitfrost.Sdk.Types.{Order}
use bitfrost.Api.Server.{OrdersPage}
use bitfrost.Api.Server.Paging.{
  page, offset_of, limit_of, clamp_limit, slice, place, page_limit, or_zero,
}

-- A client that asks for page after page, as long as there is a cursor.
unfoldable pub walk : ℕ → Option String → Option String → List Order → List Order
unfolding page
walk zero cursor limit os = []
walk (suc fuel) cursor limit os =
    let p = page cursor limit os in
    p.orders ++ elim p.cursor [ none ↦ [] | some c ↦ walk fuel (some c) limit os ]

take-drop : (n : ℕ) (xs : List Order) → take n xs ++ drop n xs ≡ xs
take-drop zero xs = refl
take-drop (suc n) [] = refl
take-drop (suc n) (x ∷ xs) = ap (λ l. x ∷ l) (take-drop n xs)

append-nil : (xs : List Order) → xs ++ [] ≡ xs
append-nil [] = refl
append-nil (x ∷ xs) = ap (λ l. x ∷ l) (append-nil xs)

drop-nil : (n : ℕ) → ◌≡◌ {A = List Order} (drop n []) []
drop-nil zero = refl
drop-nil (suc n) = refl

drop_sum : (m n k : ℕ) (xs : List Order) → n + m ≡ k → drop m (drop n xs) ≡ drop k xs
drop_sum m zero k xs h = ap (λ i. drop i xs) (omega (arith, h))
drop_sum m (suc n) k [] h = drop-nil m ∙ sym (drop-nil k)
drop_sum m (suc n) zero (x ∷ xs) h = absurd (omega (arith, h))
drop_sum m (suc n) (suc k) (x ∷ xs) h = drop_sum m n k xs (omega (arith, h))

take_all : (n : ℕ) (xs : List Order) → length xs ≤ n → take n xs ≡ xs
take_all zero [] h = refl
take_all zero (x ∷ xs) h = absurd (omega (arith, h))
take_all (suc n) [] h = refl
take_all (suc n) (x ∷ xs) h = ap (λ l. x ∷ l) (take_all n xs (omega (arith, h)))

length-drop : (n : ℕ) (xs : List Order) → n ≤ length xs → length (drop n xs) + n ≡ length xs
length-drop zero xs h = omega arith
length-drop (suc n) [] h = absurd (omega (arith, h))
length-drop (suc n) (x ∷ xs) h = omega (arith, length-drop n xs (omega (arith, h)))

length-take : (n : ℕ) (xs : List Order) → length (take n xs) ≤ n
length-take zero xs = omega arith
length-take (suc n) [] = omega arith
length-take (suc n) (x ∷ xs) = omega (arith, length-take n xs)

pos_sum : (a b : ℕ) → pos a +ℤ pos b ≡ pos (a + b)
unfolding ◌+ℤ◌
pos_sum a b = ground arith

limit_positive : (limit : Option String) → (0 < limit_of limit) × (limit_of limit ≤ page_limit)
limit_positive none = (omega arith, omega arith)
limit_positive (some text) = clamped (big_int text)
  where
    clamped : (n : Option ℤ) → (0 < clamp_limit n) × (clamp_limit n ≤ page_limit)
    clamped none = (omega arith, omega arith)
    clamped (some (pos zero)) = (omega arith, omega arith)
    clamped (some (pos (suc n))) = (omega arith, omega arith)
    clamped (some (negsuc n)) = (omega arith, omega arith)

-- A page in the middle of the list, and the last one.
middle_orders :
    (os : List Order) (k s : ℕ)
    → k + s < length os
    → slice os (pos k) (pos (k + s)) ≡ take s (drop k os)
middle_orders os k s h =
    let start : min k (length os) ≡ k = omega (arith, h) in
    let size : min (k + s) (length os) - k ≡ s = omega (arith, h) in rw (start, size) refl

last_orders :
    (os : List Order) (k s : ℕ)
    → k ≤ length os
    → length os ≤ k + s
    → slice os (pos k) (pos (k + s)) ≡ drop k os
last_orders os k s h end =
    let start : min k (length os) ≡ k = omega (arith, h) in
    rw start (take_all _ (drop k os) (omega (arith, h, end, length-drop k os h)))

page_middle :
    (cursor limit : Option String) (os : List Order) (k : ℕ)
    → offset_of cursor ≡ pos k
    → k + limit_of limit < length os
    → page cursor limit os ≡ record {
      orders = take (limit_of limit) (drop k os);
      cursor = some (to_string (k + limit_of limit));
    }
unfolding page int_to_string
page_middle cursor limit os k e h =
    let more : ltb_ℤ (pos (k + limit_of limit)) (pos (length os)) ≡ true = ground (arith, h) in
    rw (e, pos_sum k (limit_of limit), middle_orders os k (limit_of limit) h, more) refl

page_last :
    (cursor limit : Option String) (os : List Order) (k : ℕ)
    → offset_of cursor ≡ pos k
    → k ≤ length os
    → length os ≤ k + limit_of limit
    → page cursor limit os ≡ record { orders = drop k os; cursor = none }
unfolding page
page_last cursor limit os k e h end =
    let last : ltb_ℤ (pos (k + limit_of limit)) (pos (length os)) ≡ false = ground (arith, end) in
    rw (e, pos_sum k (limit_of limit), last_orders os k (limit_of limit) h end, last) refl

abbrev and_then : ℕ → Option String → List Order → OrdersPage → List Order
and_then fuel limit os p =
    p.orders ++ elim p.cursor [ none ↦ [] | some c ↦ walk fuel (some c) limit os ]

walk_from :
    (fuel k : ℕ) (cursor limit : Option String) (os : List Order)
    → offset_of cursor ≡ pos k
    → k ≤ length os
    → length os < fuel + k
    → walk fuel cursor limit os ≡ drop k os
unfolding walk
walk_from zero k cursor limit os e h enough = absurd (omega (arith, h, enough))
walk_from (suc fuel) k cursor limit os e h enough =
    let size = (limit_positive limit).0 in
    elim (Bool-cases (ltb (k + limit_of limit) (length os))) [
      | inl more ↦
          let ahead : k + limit_of limit < length os = ground (arith, more) in
          ap (and_then fuel limit os) (page_middle cursor limit os k e ahead)
          ∙ (ap (λ l. take (limit_of limit) (drop k os) ++ l)
                (walk_from fuel (k + limit_of limit) (some (to_string (k + limit_of limit))) limit
                    os (ap or_zero (big_int-to_string (k + limit_of limit))) (omega (arith, ahead))
                    (omega (arith, size, enough))
                  ∙ sym (drop_sum (limit_of limit) k (k + limit_of limit) os refl))
              ∙ take-drop (limit_of limit) (drop k os))
      | inr last ↦
          ap (and_then fuel limit os) (page_last cursor limit os k e h (ground (arith, last)))
          ∙ append-nil (drop k os)
    ]

window : (len s : ℕ) (a : ℤ) → place len (a +ℤ pos s) - place len a ≤ s
unfolding ◌+ℤ◌
window len s (pos n) = ground arith
window len s (negsuc n) = ground arith

-- Following the cursors of GET /v1/orders from the first page, with any limit, comes to an end
-- within one page more than there are orders, and the pages together are the whole list, each order
-- once and in its place.
pub pages_cover :
    (limit : Option String) (os : List Order) → walk (suc (length os)) none limit os ≡ os
pages_cover limit os = walk_from (suc (length os)) 0 none limit os refl (omega arith) (omega arith)

-- No page holds more than 50 orders, whatever its cursor and its limit say.
pub page_bounded :
    (cursor limit : Option String) (os : List Order) → length (page cursor limit os).orders ≤ 50
unfolding page
page_bounded cursor limit os = omega (
  arith,
  length-take
      (place (length os) (offset_of cursor +ℤ pos (limit_of limit))
        - place (length os) (offset_of cursor))
      (drop (place (length os) (offset_of cursor)) os),
  window (length os) (limit_of limit) (offset_of cursor),
  (limit_positive limit).1,
)
