-- ===== src/Adapters/Lines/Chunks.antt =====
-- The lines of `LndRestHttp.stream` (bifrostd/src/adapters/transport.ts), however the body is cut into
-- pieces.
use bitfrost.Base.{
  ◌≡◌, refl, ap, ◌∙◌, ℕ, zero, suc, ◌==◌, ◌<◌, ◌≤◌, false, Option, none, some, List, [], ◌∷◌, ◌++◌,
  length, Bool-cases, inl, inr, arith, if◌then◌else◌,
}
use bitfrost.Adapters.Lines.{cut, cons_line, after_cut, drain, yield_lines, stream_lines}

abbrev with_first : ℕ → List (List ℕ) → List (List ℕ)
with_first c [] = (c ∷ []) ∷ []
with_first c (f ∷ fs) = (c ∷ f) ∷ fs

-- A text, split at every "\n".
pub fields : List ℕ → List (List ℕ)
fields [] = [] ∷ []
fields (c ∷ cs) = let later = fields cs in if c == 10 then [] ∷ later else with_first c later

-- A first line that is cut off.
abbrev CutOff : List ℕ → List ℕ → List ℕ → Type 0
CutOff buf line rest =
    (length rest < length buf) × ((t : List ℕ) → fields (buf ++ t) ≡ line ∷ fields (rest ++ t))

cut-CutOff : (buf line rest : List ℕ) → cut buf ≡ some (line, rest) → CutOff buf line rest
unfolding cut fields
cut-CutOff [] line rest h = absurd (cc (h))
cut-CutOff (c ∷ cs) line rest h = elim (Bool-cases (c == 10)) [
  | inl newline ↦
      let found : ◌≡◌ {A = Option (List ℕ × List ℕ)} (some ([], cs)) (some (line, rest)) =
        ground (arith, newline, h) in
      let empty : ◌≡◌ {A = List ℕ} [] line = cc (found) in
      let left : cs ≡ rest = cc (found) in rw (← empty, ← left, newline) (omega arith, λ t. refl)
  | inr other ↦ go (cut cs) refl (ground (arith, other, h)) other (λ l r. cut-CutOff cs l r)
]
  where
    go :
        (o : Option (List ℕ × List ℕ))
        → cut cs ≡ o
        → cons_line c o ≡ some (line, rest)
        → c == 10 ≡ false
        → ((l r : List ℕ) → cut cs ≡ some (l, r) → CutOff cs l r)
        → CutOff (c ∷ cs) line rest
    go none e f other before = absurd (cc (f))
    go (some (l, r)) e f other before =
        let longer : c ∷ l ≡ line = cc (f) in
        let left : r ≡ rest = cc (f) in
        let (shorter, split) = before l r e in
        rw (← longer, ← left, other) (omega (arith, shorter), λ t. rw (split t) refl)

uncut_fields : (buf : List ℕ) → cut buf ≡ none → fields buf ≡ buf ∷ []
unfolding cut fields
uncut_fields [] h = refl
uncut_fields (c ∷ cs) h = elim (Bool-cases (c == 10)) [
  | inl newline ↦ absurd (ground (arith, newline, h))
  | inr other ↦ go (cut cs) refl (ground (arith, other, h)) other (λ e. uncut_fields cs e)
]
  where
    go :
        (o : Option (List ℕ × List ℕ))
        → cut cs ≡ o
        → cons_line c o ≡ none
        → c == 10 ≡ false
        → (cut cs ≡ none → fields cs ≡ cs ∷ [])
        → fields (c ∷ cs) ≡ (c ∷ cs) ∷ []
    go none e f other before = rw (other, before e) refl
    go (some (l, r)) e f other before = absurd (cc (f))

-- The fuel is enough, so that nothing is left to cut.
abbrev Drains : ℕ → List ℕ → List ℕ → Type 0
Drains fuel buf t =
    (fields (buf ++ t) ≡ (drain fuel buf).0 ++ fields ((drain fuel buf).1 ++ t))
    × (cut (drain fuel buf).1 ≡ none)

after_cut-drained :
    (fuel : ℕ) (buf t : List ℕ)
    → length buf ≤ suc fuel
    → ((rest : List ℕ) → length rest ≤ fuel → Drains fuel rest t)
    → (o : Option (List ℕ × List ℕ)) → cut buf ≡ o
    → (fields (buf ++ t)
        ≡ (after_cut (drain fuel) buf o).0 ++ fields ((after_cut (drain fuel) buf o).1 ++ t))
      × (cut (after_cut (drain fuel) buf o).1 ≡ none)
after_cut-drained fuel buf t h before none e = (refl, e)
after_cut-drained fuel buf t h before (some (line, rest)) e =
    let (shorter, split) = cut-CutOff buf line rest e in
    let (whole, done) = before rest (omega (arith, h, shorter)) in
    (split t ∙ ap (λ x. line ∷ x) whole, done)

drain-Drains : (fuel : ℕ) (buf t : List ℕ) → length buf ≤ fuel → Drains fuel buf t
unfolding drain
drain-Drains zero [] t h = (refl, unfold cut in refl)
drain-Drains zero (c ∷ cs) t h = absurd (omega (arith, h))
drain-Drains (suc fuel) buf t h =
    after_cut-drained fuel buf t h (λ rest. drain-Drains fuel rest t) (cut buf) refl

yield_lines-append :
    (xs ys later : List (List ℕ))
    → yield_lines (xs ++ ys) later ≡ yield_lines xs (yield_lines ys later)
unfolding yield_lines
yield_lines-append [] ys later = refl
yield_lines-append (x ∷ xs) ys later = rw (yield_lines-append xs ys later) refl

abbrev pub joined : List (List ℕ) → List ℕ
joined [] = []
joined (piece ∷ pieces) = piece ++ joined pieces

append_nil : (xs : List ℕ) → xs ++ [] ≡ xs
append_nil [] = refl
append_nil (x ∷ xs) = rw (append_nil xs) refl

append_assoc : (xs ys zs : List ℕ) → xs ++ (ys ++ zs) ≡ (xs ++ ys) ++ zs
append_assoc [] ys zs = refl
append_assoc (x ∷ xs) ys zs = rw (append_assoc xs ys zs) refl

stream_lines-fields :
    (buf : List ℕ) (pieces : List (List ℕ))
    → cut buf ≡ none
    → stream_lines buf pieces ≡ yield_lines (fields (buf ++ joined pieces)) []
unfolding stream_lines
stream_lines-fields buf [] h = rw (append_nil buf, uncut_fields buf h) refl
stream_lines-fields buf (piece ∷ pieces) h =
    let (whole, done) =
      drain-Drains (length (buf ++ piece)) (buf ++ piece) (joined pieces) (omega arith) in
    rw
      (
        append_assoc buf piece (joined pieces),
        whole,
        yield_lines-append (drain (length (buf ++ piece)) (buf ++ piece)).0
            (fields ((drain (length (buf ++ piece)) (buf ++ piece)).1 ++ joined pieces)) [],
        stream_lines-fields (drain (length (buf ++ piece)) (buf ++ piece)).1 pieces done,
      )
      refl

-- How the network cuts the body of a stream into pieces does not matter: the lines that are yielded
-- are the lines of the whole body, split at every "\n" and trimmed, less the empty ones.
pub pieces_do_not_matter :
    (pieces : List (List ℕ)) → stream_lines [] pieces ≡ yield_lines (fields (joined pieces)) []
pieces_do_not_matter pieces = stream_lines-fields [] pieces (unfold cut in refl)
