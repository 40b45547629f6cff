-- ===== src/Sdk/Advertisement.antt =====
-- Advertisements (sdk/src/types.ts), their digest (sdk/src/canonical.ts), and the client's checks of
-- them (`verifyAdSignature`, `verifyAdvertisement` of sdk/src/verify.ts).
use bitfrost.Base.{
  ℕ, ◌+◌, String, Bool, true, false, not, Option, none, some, List, [], ◌∷◌, leb, str_eq,
}
use bitfrost.Sdk.Types.{AssetRef, Amount, protocol_version, internal, unauthorized, plain_error}
use bitfrost.Sdk.Canonical.{
  text, number, array, object, Items, no_items, item, Entries, no_entries, entry, SignedType,
  signing_digest,
}
use bitfrost.Sdk.Signed.{Crypto, asset_json}
use bitfrost.Orders.Ports.{Result}
use bitfrost.Rfq.Fallible.{◌>>=◌, ◌>>◌, attempt, refuse, when}

pub record AdvertisedPair : Type 0 where
  pub give : AssetRef
  pub gets : AssetRef
  pub min_amount : Amount
  pub max_amount : Amount

-- `endpoint` is `endpoints.api`.
pub record Advertisement : Type 0 where
  pub protocol : String
  pub hub_pubkey : String
  pub endpoint : String
  pub pairs : List AdvertisedPair
  pub fiber_node_id : String
  pub lightning_node_id : String
  pub issued_at : ℕ
  pub ttl_ms : ℕ
  pub signature : String

pairs_json : List AdvertisedPair → Items
unfolding asset_json
pairs_json [] = no_items
pairs_json (p ∷ ps) =
    item
      (object (
        entry "give" (asset_json p.give) (
          entry "get" (asset_json p.gets) (
            entry "minAmount" (text p.min_amount)
              (entry "maxAmount" (text p.max_amount) no_entries)))))
      (pairs_json ps)

unfoldable pub ad_entries : Advertisement → Entries
unfolding pairs_json
ad_entries ad = entry "protocol" (text ad.protocol) (
    entry "hubPubkey" (text ad.hub_pubkey) (
      entry "endpoints" (object (entry "api" (text ad.endpoint) no_entries)) (
        entry "pairs" (array (pairs_json ad.pairs)) (
          entry "fiberNodeId" (text ad.fiber_node_id) (
            entry "lightningNodeId" (text ad.lightning_node_id) (
              entry "issuedAt" (number ad.issued_at) (
                entry "ttlMs" (number ad.ttl_ms)
                  (entry "signature" (text ad.signature) no_entries))))))))

abbrev checked : Crypto → Advertisement → Option (List ℕ) → Option Bool
checked c ad none = none
checked c ad (some digest) = some (c.schnorr_verify ad.signature digest ad.hub_pubkey)

-- `none` is the error that the digest throws.
unfoldable pub verify_ad_signature : Crypto → Advertisement → Option Bool
unfolding signing_digest ad_entries
verify_ad_signature c ad =
    checked c ad (signing_digest c.stringify c.utf8 c.sha256 (ad_entries ad) SignedType.ad)

unfoldable pub verify_advertisement : Crypto → Advertisement → ℕ → Result (Unit {0})
unfolding verify_ad_signature
verify_advertisement c ad now = do
  when (not (str_eq ad.protocol protocol_version)) (refuse internal "unsupported protocol" false)
  when (leb (ad.issued_at + ad.ttl_ms) now) (refuse internal "advertisement expired" true)
  genuine ← attempt (verify_ad_signature c ad) plain_error
  when (not genuine) (refuse unauthorized "advertisement signature verification failed" false)
