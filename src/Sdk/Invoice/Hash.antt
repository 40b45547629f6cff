-- ===== src/Sdk/Invoice/Hash.antt =====
-- The payment hash that `detectInvoice` (sdk/src/invoice.ts) finds.
use Prim.Native.String.{◌++◌ as append}
use mathlib.Core.Path.{subst}
use bitfrost.Base.{
  ℕ, zero, suc, ◌+◌, ◌/◌, ◌%◌, ◌≤◌, ◌≡◌, refl, String, Bool, true, false, Option, none, some, List,
  [], ◌∷◌, ◌++◌, length, take, drop, truthy, arith, length-append, if◌then◌else◌, map, Bool-cases,
  Option-cases, inl, inr, ◌==◌,
}
use bitfrost.Base.Codes.{codes, codes-append, is_lower_hex, all_codes, trim, lower}
use bitfrost.Base.Int.{ℤ}
use bitfrost.Base.Decimal.{big_int}
use bitfrost.Orders.Ports.{Result, ok, err}
use bitfrost.Orders.Preimage.{to_hex, hex_digit, is_hash256}
use bitfrost.Rfq.Fallible.{◌>>=◌}
use bitfrost.Sdk.Invoice.{
  InvoiceInfo, Decoders, Section, is_hash_text, with_msat, with_hash, is_malformed, fiber_info,
  amount_part, from_bech32m, after_prefix, decode_lightning, decode_fiber, detect_invoice,
  find_amount, find_hash, is_lightning_text, is_fiber_text,
}

all_codes-append :
    (p : ℕ → Bool) (xs ys : List ℕ)
    → all_codes p xs ≡ true
    → all_codes p ys ≡ true
    → all_codes p (xs ++ ys) ≡ true
all_codes-append p [] ys h k = k
all_codes-append p (x ∷ xs) ys h k = ground (arith, all_codes-append p xs ys)

-- One lower-case hex digit.
abbrev IsHexDigit : String → Type 0
IsHexDigit s = (length (codes s) ≡ 1) × (all_codes is_lower_hex (codes s) ≡ true)

either-IsHexDigit :
    (b : Bool) (s t : String) → IsHexDigit s → IsHexDigit t → IsHexDigit (if b then s else t)
either-IsHexDigit true s t hs ht = hs
either-IsHexDigit false s t hs ht = ht

hex_digit-IsHexDigit : (d : ℕ) → IsHexDigit (hex_digit d)
unfolding hex_digit
hex_digit-IsHexDigit d =
    either-IsHexDigit (d == 0) "0" _ (refl, refl)
      (either-IsHexDigit (d == 1) "1" _ (refl, refl)
        (either-IsHexDigit (d == 2) "2" _ (refl, refl)
          (either-IsHexDigit (d == 3) "3" _ (refl, refl)
            (either-IsHexDigit (d == 4) "4" _ (refl, refl)
              (either-IsHexDigit (d == 5) "5" _ (refl, refl)
                (either-IsHexDigit (d == 6) "6" _ (refl, refl)
                  (either-IsHexDigit (d == 7) "7" _ (refl, refl)
                    (either-IsHexDigit (d == 8) "8" _ (refl, refl)
                      (either-IsHexDigit (d == 9) "9" _ (refl, refl)
                        (either-IsHexDigit (d == 10) "a" _ (refl, refl)
                          (either-IsHexDigit (d == 11) "b" _ (refl, refl)
                            (either-IsHexDigit (d == 12) "c" _ (refl, refl)
                              (either-IsHexDigit (d == 13) "d" _ (refl, refl)
                                (either-IsHexDigit (d == 14) "e" _ (refl, refl)
                                  (refl, refl)))))))))))))))

pub length-to_hex : (bs : List ℕ) → length (codes (to_hex bs)) ≡ length bs + length bs
unfolding to_hex
length-to_hex [] = refl
length-to_hex (b ∷ bs) =
    rw
      (
        codes-append (hex_digit (b / 16)) (append (hex_digit (b % 16)) (to_hex bs)),
        codes-append (hex_digit (b % 16)) (to_hex bs),
      )
      (omega (
        arith,
        length-append (codes (hex_digit (b / 16)))
            (codes (hex_digit (b % 16)) ++ codes (to_hex bs)),
        length-append (codes (hex_digit (b % 16))) (codes (to_hex bs)),
        (hex_digit-IsHexDigit (b / 16)).0,
        (hex_digit-IsHexDigit (b % 16)).0,
        length-to_hex bs,
      ))

pub to_hex_lower : (bs : List ℕ) → all_codes is_lower_hex (codes (to_hex bs)) ≡ true
unfolding to_hex
to_hex_lower [] = refl
to_hex_lower (b ∷ bs) =
    rw
      (
        codes-append (hex_digit (b / 16)) (append (hex_digit (b % 16)) (to_hex bs)),
        codes-append (hex_digit (b % 16)) (to_hex bs),
      )
      (all_codes-append is_lower_hex (codes (hex_digit (b / 16)))
        (codes (hex_digit (b % 16)) ++ codes (to_hex bs)) (hex_digit-IsHexDigit (b / 16)).1
        (all_codes-append is_lower_hex (codes (hex_digit (b % 16))) (codes (to_hex bs))
          (hex_digit-IsHexDigit (b % 16)).1 (to_hex_lower bs)))

length-take : (n : ℕ) (xs : List ℕ) → n ≤ length xs → length (take n xs) ≡ n
length-take zero xs h = refl
length-take (suc n) [] h = absurd (omega (arith, h))
length-take (suc n) (x ∷ xs) h = omega (arith, length-take n xs (omega (arith, h)))

length-drop : (n : ℕ) (xs : List ℕ) → n ≤ length xs → length (drop n xs) + n ≡ length xs
length-drop zero xs h = omega arith
length-drop (suc n) [] h = absurd (omega (arith, h))
length-drop (suc n) (x ∷ xs) h = omega (arith, length-drop n xs (omega (arith, h)))

payload_hash :
    (payload : List ℕ)
    → is_malformed payload ≡ false
    → is_hash_text (to_hex (take 32 (drop 9 payload))) ≡ true
payload_hash [] h = absurd (cc (h))
payload_hash (v ∷ rest) h =
    let long : 40 ≤ length rest = ground (arith, h) in
    let cut : 32 ≤ length (drop 8 rest) = omega (arith, length-drop 8 rest, long) in
    rw
      (
        length-to_hex (take 32 (drop 8 rest)),
        length-take 32 (drop 8 rest) cut,
        to_hex_lower (take 32 (drop 8 rest)),
      )
      refl

-- The hash that was found, if the invoice was accepted.
abbrev Found : Option String → Type 0
Found none = ⊥
Found (some h) = is_hash_text h ≡ true

abbrev HasHash : Result InvoiceInfo → Type 0
HasHash (err e) = Unit
HasHash (ok info) = Found info.payment_hash

with_msat-HasHash :
    (raw hash : String) (at : Option ℕ) (amount : Option String)
    → is_hash_text hash ≡ true
    → HasHash (with_msat raw hash at amount)
unfolding ◌>>=◌
with_msat-HasHash raw hash at none h = h
with_msat-HasHash raw hash at (some text) h = elim (Option-cases (big_int text)) [
  | inl e ↦ rw e tt
  | inr (n, e) ↦ rw e h
]

with_hash-HasHash :
    (raw : String) (sections : List Section) (hash : Option String)
    → HasHash (with_hash raw sections hash)
with_hash-HasHash raw sections none = tt
with_hash-HasHash raw sections (some hash) = elim (Bool-cases (is_hash_text hash)) [
  | inl e ↦ rw e (with_msat-HasHash raw hash _ (find_amount sections) e)
  | inr e ↦ rw e tt
]

decode_lightning-HasHash : (d : Decoders) (raw : String) → HasHash (decode_lightning d raw)
unfolding decode_lightning
decode_lightning-HasHash d raw = elim (Option-cases (d.bolt11 raw)) [
  | inl e ↦ rw e tt
  | inr (sections, e) ↦ rw e (with_hash-HasHash raw sections (truthy (find_hash sections)))
]

fiber_info-HasHash :
    (raw : String) (payload : List ℕ) (amount : Option ℤ) → HasHash (fiber_info raw payload amount)
fiber_info-HasHash raw payload amount = elim (Bool-cases (is_malformed payload)) [
  | inl e ↦ rw e tt
  | inr e ↦ rw e (payload_hash payload e)
]

with_amount-HasHash :
    (raw : String) (payload : List ℕ) (amount : Result (Option ℤ))
    → HasHash (amount >>= fiber_info raw payload)
unfolding ◌>>=◌
with_amount-HasHash raw payload (ok amount) = fiber_info-HasHash raw payload amount
with_amount-HasHash raw payload (err e) = tt

from_bech32m-HasHash :
    (raw : String) (decoded : Option (List ℕ × List ℕ)) → HasHash (from_bech32m raw decoded)
from_bech32m-HasHash raw none = tt
from_bech32m-HasHash raw (some (hrp, payload)) = elim (Option-cases (after_prefix hrp)) [
  | inl e ↦ rw e tt
  | inr (rest, e) ↦ rw e (with_amount-HasHash raw payload (amount_part rest))
]

either-HasHash :
    (b : Bool) (x y : Result InvoiceInfo) → HasHash x → HasHash y → HasHash (if b then x else y)
either-HasHash true x y hx hy = hx
either-HasHash false x y hx hy = hy

detect_invoice-HasHash : (d : Decoders) (raw : String) → HasHash (detect_invoice d raw)
unfolding detect_invoice decode_fiber
detect_invoice-HasHash d raw =
    either-HasHash (is_lightning_text (map lower (codes (trim raw)))) _ _
      (decode_lightning-HasHash d (trim raw))
      (either-HasHash (is_fiber_text (map lower (codes (trim raw)))) _ _
        (from_bech32m-HasHash (trim raw) (d.bech32m (map lower (codes (trim raw))))) tt)

-- A text with "0x" before it, under `assertHash256`.
abbrev pub Accepted : Option String → Type 0
Accepted none = ⊥
Accepted (some h) = is_hash256 (append "0x" h) ≡ true

Accepted-Found : (h : Option String) → Found h → Accepted h
unfolding is_hash256
Accepted-Found none f = f
Accepted-Found (some h) f = rw (codes-append "0x" h) f

-- An invoice that is accepted, of either network and whatever the decoders return, carries a payment
-- hash, and with "0x" before it that hash passes `assertHash256`, the check that an order's hash
-- must pass.
pub detected_hash_passes :
    (d : Decoders) (raw : String) (info : InvoiceInfo)
    → detect_invoice d raw ≡ ok info
    → Accepted info.payment_hash
detected_hash_passes d raw info h =
    Accepted-Found info.payment_hash (subst HasHash h (detect_invoice-HasHash d raw))
