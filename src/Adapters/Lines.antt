-- ===== src/Adapters/Lines.antt =====
-- `LndRestHttp.stream` (bifrostd/src/adapters/transport.ts): the lines of a body that comes in pieces,
-- each a list of codes as the decoder gives it. `JSON.parse` reads the lines that are yielded.
pub mod Chunks
use bitfrost.Base.{
  ℕ, zero, suc, ◌==◌, Option, none, some, List, [], ◌∷◌, ◌++◌, length, if◌then◌else◌,
}
use bitfrost.Base.Decimal.{trim_start, trim_end}

-- What stands before the first "\n", and after it.
abbrev cons_line : ℕ → Option (List ℕ × List ℕ) → Option (List ℕ × List ℕ)
cons_line c none = none
cons_line c (some (line, rest)) = some (c ∷ line, rest)

unfoldable pub cut : List ℕ → Option (List ℕ × List ℕ)
cut [] = none
cut (c ∷ cs) = let later = cons_line c (cut cs) in if c == 10 then some ([], cs) else later

-- The lines of the buffer, and what is left of it: one round for each line, at most its length.
abbrev after_cut :
    (List ℕ → List (List ℕ) × List ℕ) → List ℕ → Option (List ℕ × List ℕ) → List (List ℕ) × List ℕ
after_cut more buf none = ([], buf)
after_cut more buf (some (line, rest)) = (line ∷ (more rest).0, (more rest).1)

unfoldable pub drain : ℕ → List ℕ → List (List ℕ) × List ℕ
unfolding cut
drain zero buf = ([], buf)
drain (suc fuel) buf = after_cut (drain fuel) buf (cut buf)

-- A trimmed line is yielded unless it is empty.
abbrev yield_line : List ℕ → List (List ℕ) → List (List ℕ)
yield_line [] later = later
yield_line (c ∷ cs) later = (c ∷ cs) ∷ later

unfoldable pub yield_lines : List (List ℕ) → List (List ℕ) → List (List ℕ)
yield_lines [] later = later
yield_lines (line ∷ lines) later = yield_line (trim_end (trim_start line)) (yield_lines lines later)

unfoldable pub stream_lines : List ℕ → List (List ℕ) → List (List ℕ)
unfolding drain yield_lines
stream_lines buf [] = yield_lines (buf ∷ []) []
stream_lines buf (piece ∷ pieces) =
    let drained = drain (length (buf ++ piece)) (buf ++ piece) in
    yield_lines drained.0 (stream_lines drained.1 pieces)
