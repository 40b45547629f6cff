-- ===== src/Sdk/Invoice.antt =====
-- sdk/src/invoice.ts: the network, the payment hash and the amount of an invoice. The decoders of
-- light-bolt11-decoder and of @scure/base are parameters. A text that is looked into is the list of
-- its codes; `toLowerCase` is meant for ASCII.
pub mod Hash
use Prim.Native.String.{◌++◌ as append}
use bitfrost.Base.{
  ℕ, ◌+◌, ◌*◌, ◌/◌, ◌%◌, ◌==◌, String, Bool, true, false, not, ◌&&◌, ◌||◌, Option, none, some, List,
  [], ◌∷◌, map, ltb, length, take, drop, truthy, if◌then◌else◌,
}
use bitfrost.Base.Codes.{codes, lower, starts_with, is_digit, is_lower_hex, all_codes, trim}
use bitfrost.Base.Int.{ℤ, pos, negsuc, minus}
use bitfrost.Base.Decimal.{big_int, read_number}
use bitfrost.Sdk.Types.{Network, fiber, lightning, ErrorCode, invoice_invalid, syntax_error}
use bitfrost.Orders.Ports.{Result, ok, err}
use bitfrost.Orders.Preimage.{to_hex}
use bitfrost.Rfq.Fallible.{◌>>=◌, attempt, refuse}

-- `amount` is in sat or shannon; `amount_msat` and `expires_at` are of Lightning only.
pub record InvoiceInfo : Type 0 where
  pub network : Network
  pub raw : String
  pub payment_hash : Option String
  pub amount : Option ℤ
  pub amount_msat : Option ℤ
  pub expires_at : Option ℕ

-- A section of a BOLT11 invoice, with the type that the code takes its value to have.
pub data Section : Type 0 where
  hash_section amount_section : String → Section
  timestamp_section expiry_section : ℕ → Section
  other_section : Section

-- What the decoders return; `none` where they throw. `bech32m` is `decode` and `fromWords`, from the
-- codes of a text to those of its prefix, and to the bytes.
pub record Decoders : Type 0 where
  pub bolt11 : String → Option (List Section)
  pub bech32m : List ℕ → Option (List ℕ × List ℕ)

-- `get`, for each name.
abbrev find_hash : List Section → Option String
find_hash [] = none
find_hash (hash_section s ∷ ss) = some s
find_hash (_ ∷ ss) = find_hash ss

abbrev find_amount : List Section → Option String
find_amount [] = none
find_amount (amount_section s ∷ ss) = some s
find_amount (_ ∷ ss) = find_amount ss

abbrev find_timestamp : List Section → Option ℕ
find_timestamp [] = none
find_timestamp (timestamp_section n ∷ ss) = some n
find_timestamp (_ ∷ ss) = find_timestamp ss

abbrev find_expiry : List Section → Option ℕ
find_expiry [] = none
find_expiry (expiry_section n ∷ ss) = some n
find_expiry (_ ∷ ss) = find_expiry ss

-- `/^[0-9a-f]{64}$/`.
abbrev pub is_hash_text : String → Bool
is_hash_text s = length (codes s) == 64 && all_codes is_lower_hex (codes s)

-- An amount in msat as whole sats, if it is.
unfoldable pub whole_sats : ℤ → Option ℤ
whole_sats (pos n) = if n % 1000 == 0 then some (pos (n / 1000)) else none
whole_sats (negsuc n) = if (n + 1) % 1000 == 0 then some (minus ((n + 1) / 1000)) else none

abbrev expiry_of : Option ℕ → Option ℕ → Option ℕ
expiry_of none seconds = none
expiry_of (some t) none = some ((t + 3600) * 1000)
expiry_of (some t) (some seconds) = some ((t + seconds) * 1000)

abbrev with_msat : String → String → Option ℕ → Option String → Result InvoiceInfo
with_msat raw hash at none = ok (record {
  network = lightning;
  raw = raw;
  payment_hash = some hash;
  amount = none;
  amount_msat = none;
  expires_at = at;
})
with_msat raw hash at (some text) = attempt (big_int text) syntax_error >>= λ msat. ok (record {
  network = lightning;
  raw = raw;
  payment_hash = some hash;
  amount = whole_sats msat;
  amount_msat = some msat;
  expires_at = at;
})

abbrev with_hash : String → List Section → Option String → Result InvoiceInfo
with_hash raw sections none =
    refuse invoice_invalid "BOLT11 invoice missing sha256 payment hash" false
with_hash raw sections (some hash) =
    if not (is_hash_text hash)
    then refuse invoice_invalid "BOLT11 invoice missing sha256 payment hash" false
    else with_msat raw hash (expiry_of (find_timestamp sections) (find_expiry sections))
        (find_amount sections)

abbrev from_sections : String → Option (List Section) → Result InvoiceInfo
from_sections raw none = refuse invoice_invalid "BOLT11 decode failed" false
from_sections raw (some sections) = with_hash raw sections (truthy (find_hash sections))

unfoldable pub decode_lightning : Decoders → String → Result InvoiceInfo
unfolding whole_sats ◌>>=◌
decode_lightning d raw = from_sections raw (d.bolt11 raw)

abbrev as_shannon : Option ℕ → Option ℤ
as_shannon none = none
as_shannon (some n) = some (pos n)

-- The amount behind the network's prefix, if there is one.
abbrev amount_part : List ℕ → Result (Option ℤ)
amount_part [] = ok none
amount_part (c ∷ cs) =
    if not (all_codes is_digit (c ∷ cs))
    then refuse invoice_invalid "Fiber invoice HRP amount is not a base-10 integer" false
    else ok (as_shannon (read_number 10 (c ∷ cs)))

-- `FIBER_PREFIXES.find((p) => hrp.startsWith(p))`, and the rest behind it.
abbrev after_prefix : List ℕ → Option (List ℕ)
after_prefix hrp =
    if starts_with (codes "fibd") hrp || starts_with (codes "fibt") hrp
    then some (drop 4 hrp)
    else if starts_with (codes "fib") hrp
    then some (drop 3 hrp)
    else none

abbrev is_malformed : List ℕ → Bool
is_malformed [] = true
is_malformed (version ∷ rest) = ltb (length rest + 1) 41 || not (version == 0)

abbrev fiber_info : String → List ℕ → Option ℤ → Result InvoiceInfo
fiber_info raw payload amount =
    if is_malformed payload
    then refuse invoice_invalid "Fiber invoice payload malformed or unsupported version" false
    else ok (record {
      network = fiber;
      raw = raw;
      payment_hash = some (to_hex (take 32 (drop 9 payload)));
      amount = amount;
      amount_msat = none;
      expires_at = none;
    })

abbrev from_bech32m : String → Option (List ℕ × List ℕ) → Result InvoiceInfo
from_bech32m raw none = refuse invoice_invalid "Fiber invoice decode failed" false
from_bech32m raw (some (hrp, payload)) = elim (after_prefix hrp) [
  | none ↦ refuse invoice_invalid "Fiber invoice HRP has unknown network prefix" false
  | some rest ↦ amount_part rest >>= fiber_info raw payload
]

unfoldable pub decode_fiber : Decoders → String → Result InvoiceInfo
unfolding ◌>>=◌ to_hex
decode_fiber d raw = from_bech32m raw (d.bech32m (map lower (codes raw)))

-- `lnbcrt` and `lntbs` begin with `lnbc` and `lntb`, `fibd` and `fibt` with `fib`.
abbrev is_lightning_text : List ℕ → Bool
is_lightning_text s =
    starts_with (codes "lnbcrt") s
    || starts_with (codes "lntbs") s
    || starts_with (codes "lntb") s
    || starts_with (codes "lnbc") s

abbrev is_fiber_text : List ℕ → Bool
is_fiber_text s =
    starts_with (codes "fibd") s || starts_with (codes "fibt") s || starts_with (codes "fib") s

unfoldable pub detect_invoice : Decoders → String → Result InvoiceInfo
unfolding decode_lightning decode_fiber
detect_invoice d raw =
    if is_lightning_text (map lower (codes (trim raw)))
    then decode_lightning d (trim raw)
    else if is_fiber_text (map lower (codes (trim raw)))
    then decode_fiber d (trim raw)
    else refuse invoice_invalid "unrecognized invoice format" false
