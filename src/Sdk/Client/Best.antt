-- ===== src/Sdk/Client/Best.antt =====
-- What `bestQuote` of sdk/src/client.ts picks.
use mathlib.Core.Path.{subst}
use bitfrost.Base.{
  ◌≡◌, refl, sym, ap, ◌⊎◌, inl, inr, Bool, true, false, Option, none, some, List, [], ◌∷◌, arith,
  Bool-cases, if◌then◌else◌,
}
use bitfrost.Base.Int.{ℤ, ◌≤ℤ◌, leb_ℤ}
use bitfrost.Sdk.Types.{Side}
use bitfrost.Orders.Ports.{ok}
use bitfrost.Sdk.Client.{
  HubQuote, key_of, cons_key, with_keys, insert_key, sort_keys, first_of, sorted_first, best_quote,
}

abbrev Keyed : Type 0
Keyed = ℤ × HubQuote

module _ {A : Type 0} where
  abbrev pub Among : A → List A → Type 0
  Among x [] = ⊥
  Among x (y ∷ ys) = (y ≡ x) ⊎ Among x ys

abbrev top_of : List Keyed → Option Keyed
top_of [] = none
top_of (x ∷ xs) = some x

-- The first key is at least this one.
abbrev Tops : ℤ → Option Keyed → Type 0
Tops k none = ⊥
Tops k (some (l, q)) = k ≤ℤ l

either-Tops :
    (m : ℤ) (b : Bool) (xs ys : List Keyed)
    → (b ≡ true → Tops m (top_of xs))
    → (b ≡ false → Tops m (top_of ys))
    → Tops m (top_of (if b then xs else ys))
either-Tops m true xs ys hx hy = hx refl
either-Tops m false xs ys hx hy = hy refl

-- A new first key is at least the old one, and at least the key that came in.
insert_key-Tops_new :
    (k : ℤ) (q : HubQuote) (xs : List Keyed) → Tops k (top_of (insert_key (k, q) xs))
unfolding insert_key
insert_key-Tops_new k q [] = omega arith
insert_key-Tops_new k q ((l, p) ∷ xs) =
    either-Tops k (leb_ℤ l k) _ _ (λ h. omega arith) (λ h. ground (arith, h))

insert_key-Tops_old :
    (m k : ℤ) (q : HubQuote) (xs : List Keyed)
    → Tops m (top_of xs)
    → Tops m (top_of (insert_key (k, q) xs))
unfolding insert_key
insert_key-Tops_old m k q [] h = absurd h
insert_key-Tops_old m k q ((l, p) ∷ xs) h =
    either-Tops m (leb_ℤ l k) _ _ (λ e. ground (arith, e, h)) (λ e. h)

sort_keys-Tops :
    (m : ℤ) (x : HubQuote) (xs : List Keyed) → Among (m, x) xs → Tops m (top_of (sort_keys xs))
unfolding sort_keys
sort_keys-Tops m x [] h = absurd h
sort_keys-Tops m x ((k, q) ∷ xs) (inr h) =
    insert_key-Tops_old m k q (sort_keys xs) (sort_keys-Tops m x xs h)
sort_keys-Tops m x ((k, q) ∷ xs) (inl e) =
    let same : k ≡ m = ap (λ y. y.0) e in rw same (insert_key-Tops_new m q (sort_keys xs))

-- The first after an insertion is the new one or the old first.
insert_key-top :
    (k : ℤ) (q : HubQuote) (xs : List Keyed) (y : Keyed)
    → top_of (insert_key (k, q) xs) ≡ some y
    → ((k, q) ≡ y) ⊎ (top_of xs ≡ some y)
unfolding insert_key
insert_key-top k q [] y h = inl (cc (h))
insert_key-top k q ((l, p) ∷ xs) y h = elim (Bool-cases (leb_ℤ l k)) [
  | inl e ↦ inl (ground (arith, e, h))
  | inr e ↦ inr (ground (arith, e, h))
]

sort_keys-top : (xs : List Keyed) (y : Keyed) → top_of (sort_keys xs) ≡ some y → Among y xs
unfolding sort_keys
sort_keys-top [] y h = absurd (cc (h))
sort_keys-top ((k, q) ∷ xs) y h = elim (insert_key-top k q (sort_keys xs) y h) [
  | inl e ↦ inl e
  | inr e ↦ inr (sort_keys-top xs y e)
]

first_top :
    (xs : List Keyed) (h : HubQuote) → first_of xs ≡ ok h → (k : ℤ) × (top_of xs ≡ some (k, h))
first_top [] h e = absurd (cc (e))
first_top ((k, q) ∷ xs) h e = let same : q ≡ h = cc (e) in (k, rw same refl)

module _ (side : Side) where
  record Split (q : HubQuote) (qs : List HubQuote) (ks : List Keyed) : Type 0 where
    key : ℤ
    rest : List Keyed
    head : key_of side q ≡ some key
    tail : with_keys side qs ≡ some rest
    whole : ks ≡ (key, q) ∷ rest

  split :
      (q : HubQuote) (qs : List HubQuote) (ks : List Keyed)
      → with_keys side (q ∷ qs) ≡ some ks
      → Split q qs ks
  unfolding with_keys
  split q qs ks h = go _ _ refl refl h
    where
      go :
          (k : Option ℤ) (rest : Option (List Keyed))
          → key_of side q ≡ k
          → with_keys side qs ≡ rest
          → cons_key k q rest ≡ some ks
          → Split q qs ks
      go none rest e f g = absurd (cc (g))
      go (some k) none e f g = absurd (cc (g))
      go (some k) (some rest) e f g = record {
        key = k;
        rest = rest;
        head = e;
        tail = f;
        whole = cc (g);
      }

  -- The keys are those of the quotes.
  keyed_back :
      (qs : List HubQuote) (ks : List Keyed) (k : ℤ) (q : HubQuote)
      → with_keys side qs ≡ some ks
      → Among (k, q) ks
      → Among q qs × (key_of side q ≡ some k)
  unfolding with_keys
  keyed_back [] ks k q h a =
      let none_left : ◌≡◌ {A = List Keyed} [] ks = cc (h) in
      absurd (subst (Among (k, q)) (sym none_left) a)
  keyed_back (p ∷ qs) ks k q h a =
      let s = split p qs ks h in
      elim (subst (Among (k, q)) s.whole a) [
        | inl e ↦ (inl (ap (λ y. y.1) e), cc (s.head, e))
        | inr b ↦ let (r, kq) = keyed_back qs s.rest k q s.tail b in (inr r, kq)
      ]

  keyed_in :
      (qs : List HubQuote) (ks : List Keyed) (k : ℤ) (q : HubQuote)
      → with_keys side qs ≡ some ks
      → Among q qs
      → key_of side q ≡ some k
      → Among (k, q) ks
  keyed_in [] ks k q h a e = absurd a
  keyed_in (p ∷ qs) ks k q h (inl same) e =
      let s = split p qs ks h in rw s.whole (inl (cc (s.head, same, e)))
  keyed_in (p ∷ qs) ks k q h (inr a) e =
      let s = split p qs ks h in rw s.whole (inr (keyed_in qs s.rest k q s.tail a e))

  -- How the first of the sorted quotes was found.
  record Picked (qs : List HubQuote) (h : HubQuote) : Type 0 where
    keys : List Keyed
    read : with_keys side qs ≡ some keys
    key : ℤ
    first : top_of (sort_keys keys) ≡ some (key, h)

  picked :
      (qs : List HubQuote) (h : HubQuote) → sorted_first (with_keys side qs) ≡ ok h → Picked qs h
  picked qs h e = go _ refl e
    where
      go :
          (ks : Option (List Keyed)) → with_keys side qs ≡ ks → sorted_first ks ≡ ok h → Picked qs h
      go none r f = absurd (cc (f))
      go (some ks) r f =
          let (k, t) = first_top (sort_keys ks) h f in
          record { keys = ks; read = r; key = k; first = t }

  first_is_best :
      (qs : List HubQuote) (h x : HubQuote) (kh kx : ℤ)
      → Picked qs h
      → Among x qs
      → key_of side h ≡ some kh
      → key_of side x ≡ some kx
      → Among h qs × (kx ≤ℤ kh)
  first_is_best qs h x kh kx p a eh ex =
      let (r, kq) = keyed_back qs p.keys p.key h p.read (sort_keys-top p.keys (p.key, h) p.first) in
      let t =
        subst (Tops kx) p.first
          (sort_keys-Tops kx x p.keys (keyed_in qs p.keys kx x p.read a ex)) in
      let same : p.key ≡ kh = cc (kq, eh) in (r, subst (λ k. kx ≤ℤ k) same t)

  -- The quote that `bestQuote` returns is among those it was given, and no other one is better: of
  -- two amounts that can be read, the one that counts (the amount to get for a fixed give side, and
  -- the amount to give, negated, for a fixed get side) is at most that of the quote returned.
  pub best_quote_is_best :
      (qs : List HubQuote) (h x : HubQuote) (kh kx : ℤ)
      → best_quote qs side ≡ ok h
      → Among x qs
      → key_of side h ≡ some kh
      → key_of side x ≡ some kx
      → Among h qs × (kx ≤ℤ kh)
  unfolding best_quote
  best_quote_is_best [] h x kh kx e a eh ex = absurd a
  best_quote_is_best (q ∷ []) h x kh kx e (inr a) eh ex = absurd a
  best_quote_is_best (q ∷ []) h x kh kx e (inl a) eh ex =
      let same : q ≡ h = cc (e) in
      let equal : kx ≡ kh = cc (same, a, eh, ex) in (inl same, rw equal (omega arith))
  best_quote_is_best (q ∷ p ∷ rest) h x kh kx e a eh ex =
      first_is_best (q ∷ p ∷ rest) h x kh kx (picked (q ∷ p ∷ rest) h e) a eh ex
