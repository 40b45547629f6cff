-- ===== src/Sdk/Signed.antt =====
-- The signed objects of sdk/src/types.ts as the values that sdk/src/canonical.ts serializes, and the
-- checks of their signatures (sdk/src/verify.ts). BIP-340 signing and verification are parameters.
use bitfrost.Base.{ℕ, String, Bool, Option, none, some, List, ◌≡◌, refl, str_eq}
use bitfrost.Sdk.Types.{AssetRef, lightning_sat, fiber_shannon, fiber_udt, Quote}
use bitfrost.Sdk.Canonical.{
  Json, text, number, object, Entries, no_entries, entry, SignedType, signing_digest,
}

pub record Crypto : Type 0 where
  pub stringify : String → String
  pub utf8 : String → List ℕ
  pub sha256 : List ℕ → List ℕ
  pub schnorr_sign : List ℕ → String
  pub schnorr_verify : String → List ℕ → String → Bool

unfoldable pub asset_json : AssetRef → Json
asset_json lightning_sat =
    object (entry "network" (text "lightning") (entry "unit" (text "sat") no_entries))
asset_json fiber_shannon =
    object (entry "network" (text "fiber") (entry "unit" (text "shannon") no_entries))
asset_json (fiber_udt s) = object (
    entry "network" (text "fiber") (
      entry "unit" (text "udt") (
        entry "udtScript"
          (object (
            entry "codeHash" (text s.code_hash)
              (entry "hashType" (text s.hash_type) (entry "args" (text s.args) no_entries))))
          no_entries)))

-- The entries of a quote but its signature, before `rest`.
unsigned_entries : Quote → Entries → Entries
unfolding asset_json
unsigned_entries q rest = entry "protocol" (text q.protocol) (
    entry "quoteId" (text q.quote_id) (
      entry "pair"
        (object
          (entry "give" (asset_json q.pair.give) (entry "get" (asset_json q.pair.gets) no_entries)))
        (entry "rate"
          (object (entry "num" (text q.rate.num) (entry "den" (text q.rate.den) no_entries)))
          (entry "giveAmount" (text q.give_amount) (
            entry "getAmount" (text q.get_amount) (
              entry "feeBreakdown"
                (object (
                  entry "hubFeePpm" (text q.fee_breakdown.hub_fee_ppm) (
                    entry "flatFee" (text q.fee_breakdown.flat_fee)
                      (entry "estNetworkFee" (text q.fee_breakdown.est_network_fee) no_entries))))
                (entry "issuedAt" (number q.issued_at) (
                  entry "expiresAt" (number q.expires_at) (
                    entry "maxIncomingHoldMs" (number q.max_incoming_hold_ms) (
                      entry "minSafetyDeltaMs" (number q.min_safety_delta_ms)
                        (entry "hubPubkey" (text q.hub_pubkey) rest)))))))))))

-- A quote without its signature, and with it.
unfoldable pub unsigned_quote : Quote → Entries
unfolding unsigned_entries
unsigned_quote q = unsigned_entries q no_entries

unfoldable pub signed_quote : Quote → Entries
unfolding unsigned_entries
signed_quote q = unsigned_entries q (entry "signature" (text q.signature) no_entries)

-- The digest of a signed quote is the digest of what the hub signed.
pub signed_quote-digest :
    (c : Crypto) (q : Quote)
    → signing_digest c.stringify c.utf8 c.sha256 (signed_quote q) SignedType.quote
      ≡ signing_digest c.stringify c.utf8 c.sha256 (unsigned_quote q) SignedType.quote
unfolding signing_digest unsigned_quote signed_quote str_eq
signed_quote-digest c q = refl

abbrev checked : Crypto → String → String → Option (List ℕ) → Option Bool
checked c signature key none = none
checked c signature key (some digest) = some (c.schnorr_verify signature digest key)

-- `verifyQuoteSignature`; `none` is the error that the digest throws.
unfoldable pub verify_quote_signature : Crypto → Quote → Option Bool
unfolding signing_digest signed_quote
verify_quote_signature c q =
    checked c q.signature q.hub_pubkey
      (signing_digest c.stringify c.utf8 c.sha256 (signed_quote q) SignedType.quote)
