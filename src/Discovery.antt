-- ===== src/Discovery.antt =====
-- crates/desktop/src/wifi.rs: the datagrams by which the desktop finds the phone on a network.
pub mod Binding
pub mod Search
pub mod Unique
use age_plugin_phone.Base.{
  ℕ, Bool, true, false, not, ◌&&◌, Option, some, none, List, [], ◌∷◌, ◌++◌, Bytes, codes, bytes_eq,
  length, take, drop, ◌==◌,
}
use age_plugin_phone.Crypto.{Crypto}
use age_plugin_phone.Transport.{u16_to_be}

abbrev pub discovery_magic : Bytes
discovery_magic = codes "APWD"

abbrev pub discovery_version : ℕ
discovery_version = 1

abbrev pub discovery_query : ℕ
discovery_query = 1

abbrev pub discovery_response : ℕ
discovery_response = 2

abbrev pub discovery_query_bytes : ℕ
discovery_query_bytes = 72

abbrev pub discovery_response_bytes : ℕ
discovery_response_bytes = 136

abbrev pub discovery_signature_domain : Bytes
discovery_signature_domain = codes "age-plugin-phone/wifi-discovery-response/v1"

pub data DiscoveryPurpose : Type 0 where
  for_pairing for_unwrap : DiscoveryPurpose

abbrev pub purpose_code : DiscoveryPurpose → ℕ
purpose_code for_pairing = 1
purpose_code for_unwrap = 2

pub record DiscoveryQuery : Type 0 where
  pub purpose : DiscoveryPurpose
  pub nonce : Bytes
  pub desktop_id : Bytes
  pub identity_id : Bytes

unfoldable pub encode_discovery : DiscoveryQuery → ℕ → Bytes
unfolding u16_to_be
encode_discovery query kind =
    discovery_magic
    ++ (u16_to_be discovery_version
        ++ (kind
            ∷ purpose_code query.purpose
            ∷ (query.nonce ++ (query.desktop_id ++ query.identity_id))))

module _ (x : Crypto) where
  -- `Signature::from_slice`, the low-S form, and the verification under the key.
  unfoldable pub is_signed : x.Point → Bytes → Bytes → Bool
  is_signed key message bytes = elim (x.signature_from_slice bytes) [
    | none ↦ false
    | some signature ↦ elim (x.normalize_s signature) [
      | some low ↦ false
      | none ↦ x.verify_message key message signature
    ]
  ]

  abbrev pub signed_message : DiscoveryQuery → Bytes
  signed_message query =
      discovery_signature_domain ++ (0 ∷ encode_discovery query discovery_response)

  -- The response that a query of this purpose takes, with the key of the pairing's phone or without.
  unfoldable pub valid_for : DiscoveryPurpose → Option x.Point → Bytes → DiscoveryQuery → Bool
  unfolding is_signed
  valid_for for_pairing none encoded query =
      bytes_eq encoded (encode_discovery query discovery_response)
  valid_for for_unwrap (some key) encoded query =
      length encoded == discovery_response_bytes
      && (bytes_eq (take discovery_query_bytes encoded) (encode_discovery query discovery_response)
          && is_signed key (signed_message query) (drop discovery_query_bytes encoded))
  valid_for _ _ encoded query = false

  unfoldable pub valid_discovery_response : Bytes → DiscoveryQuery → Option x.Point → Bool
  unfolding valid_for
  valid_discovery_response encoded query key = valid_for query.purpose key encoded query
