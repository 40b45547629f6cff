-- ===== src/Sdk/Canonical.antt =====
-- sdk/src/canonical.ts. A JavaScript value on a signed object is `Json`: its numbers are integers that
-- are not negative, and an object is the list of its entries, the undefined ones left out. What
-- comes from elsewhere is a parameter: `JSON.stringify` of a text, UTF-8, and SHA-256.
use Prim.Native.String.{◌++◌ as append}
use bitfrost.Base.{
  ℕ, String, Bool, true, false, Option, none, some, List, [], ◌∷◌, ◌++◌, leb, ltb, ◌==◌, ◌||◌, ◌&&◌,
  str_eq, if◌then◌else◌,
}
use bitfrost.Base.Codes.{codes}
use bitfrost.Base.Decimal.{to_string}

mutual
  pub data Json : Type 0 where
    null : Json
    boolean : Bool → Json
    text : String → Json
    number : ℕ → Json
    array : Items → Json
    object : Entries → Json

  pub data Items : Type 0 where
    no_items : Items
    item : Json → Items → Items

  pub data Entries : Type 0 where
    no_entries : Entries
    entry : String → Json → Entries → Entries

-- The order of `Array.prototype.sort` on texts.
codes_before : List ℕ → List ℕ → Bool
codes_before [] d = true
codes_before (a ∷ c) [] = false
codes_before (a ∷ c) (b ∷ d) = ltb a b || a == b && codes_before c d

-- The entries, their values written, in the order of their keys.
insert_sorted : String → String → List (String × String) → List (String × String)
unfolding codes_before
insert_sorted k v [] = (k, v) ∷ []
insert_sorted k v ((j, w) ∷ rest) =
    let later = insert_sorted k v rest in
    if codes_before (codes k) (codes j) then (k, v) ∷ (j, w) ∷ rest else (j, w) ∷ later

-- `join(",")`.
abbrev join : List String → String
join [] = ""
join (s ∷ []) = s
join (s ∷ t ∷ rest) = append s (append "," (join (t ∷ rest)))

abbrev with_item : Option String → Option (List String) → Option (List String)
with_item none rest = none
with_item (some s) none = none
with_item (some s) (some rest) = some (s ∷ rest)

with_entry :
    String → Option String → Option (List (String × String)) → Option (List (String × String))
unfolding insert_sorted
with_entry k none rest = none
with_entry k (some v) none = none
with_entry k (some v) (some rest) = some (insert_sorted k v rest)

abbrev bracketed : Option (List String) → Option String
bracketed none = none
bracketed (some parts) = some (append "[" (append (join parts) "]"))

abbrev colons : (String → String) → List (String × String) → List String
colons stringify [] = []
colons stringify ((k, v) ∷ rest) = append (stringify k) (append ":" v) ∷ colons stringify rest

abbrev braced : (String → String) → Option (List (String × String)) → Option String
braced stringify none = none
braced stringify (some parts) = some (append "{" (append (join (colons stringify parts)) "}"))

-- `none` is the thrown error on a number that is not a safe integer.
unfoldable mutual
  unfolding with_entry

  pub canonicalize : (String → String) → Json → Option String
  canonicalize stringify null = some "null"
  canonicalize stringify (boolean true) = some "true"
  canonicalize stringify (boolean false) = some "false"
  canonicalize stringify (text s) = some (stringify s)
  canonicalize stringify (number n) =
      if leb n 9_007_199_254_740_991 then some (to_string n) else none
  canonicalize stringify (array items) = bracketed (write_items stringify items)
  canonicalize stringify (object entries) = braced stringify (write_entries stringify entries)

  pub write_items : (String → String) → Items → Option (List String)
  write_items stringify no_items = some []
  write_items stringify (item j rest) =
      with_item (canonicalize stringify j) (write_items stringify rest)

  pub write_entries : (String → String) → Entries → Option (List (String × String))
  write_entries stringify no_entries = some []
  write_entries stringify (entry k j rest) =
      with_entry k (canonicalize stringify j) (write_entries stringify rest)

-- `const { signature: _sig, ...rest } = obj`.
unfoldable pub without_signature : Entries → Entries
without_signature no_entries = no_entries
without_signature (entry k j rest) =
    let others = without_signature rest in if str_eq k "signature" then others else entry k j others

unfoldable pub canonical_bytes : (String → String) → (String → List ℕ) → Entries → Option (List ℕ)
unfolding canonicalize without_signature
canonical_bytes stringify utf8 obj =
    elim (canonicalize stringify (object (without_signature obj))) [
      | none ↦ none
      | some s ↦ some (utf8 s)
    ]

pub data SignedType : Type 0 where
  quote ad : SignedType

abbrev tag_text : SignedType → String
tag_text quote = "quote"
tag_text ad = "ad"

unfoldable pub signing_digest :
    (String → String)
    → (String → List ℕ)
    → (List ℕ → List ℕ)
    → Entries
    → SignedType
    → Option (List ℕ)
unfolding canonical_bytes
signing_digest stringify utf8 sha256 obj tag = elim (canonical_bytes stringify utf8 obj) [
  | none ↦ none
  | some body ↦ some (sha256 (utf8 (append "bifrost/0.1|" (append (tag_text tag) "|")) ++ body))
]
