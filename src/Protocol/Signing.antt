-- ===== src/Protocol/Signing.antt =====
-- crates/core/src/protocol/mod.rs: digests, signatures and public keys.
use age_plugin_phone.Base.{
  true, false, some, none, ◌∷◌, ◌++◌, Bytes, codes, length, bytes_eq, leb, if◌then◌else◌, Result,
  ok, err, ok_or, ensure, refuse, ◌>>=◌, ◌>>◌,
}
use age_plugin_phone.Crypto.{Crypto}
use age_plugin_phone.Recipient.{has_compressed_tag}
use age_plugin_phone.Protocol.{
  Error, malformed, invalid_public_key, invalid_signature, key_derivation,
}

-- The trait `P256Signer`, implemented by platform keys: the public key, and the signature of a digest.
pub record P256Signer : Type 0 where
  pub public_key : Result Error Bytes
  pub sign_prehash : Bytes → Result Error Bytes

abbrev pub offer_sig : Bytes
offer_sig = codes "age-plugin-phone/pairing-offer-signature/v2"

abbrev pub pairing_sig : Bytes
pairing_sig = codes "age-plugin-phone/pairing-response-signature/v2"

abbrev pub request_sig : Bytes
request_sig = codes "age-plugin-phone/unwrap-request-signature/v2"

abbrev pub response_sig : Bytes
response_sig = codes "age-plugin-phone/unwrap-response-signature/v2"

abbrev pub request_digest_domain : Bytes
request_digest_domain = codes "age-plugin-phone/request-digest/v2"

abbrev pub offer_digest_domain : Bytes
offer_digest_domain = codes "age-plugin-phone/pairing-offer-digest/v2"

abbrev pub fingerprint_domain : Bytes
fingerprint_domain = codes "age-plugin-phone/pairing-fingerprint/v2"

abbrev pub session_info : Bytes
session_info = codes "age-plugin-phone/session-response/p256/v2"

-- `str::len` counts bytes.
unfoldable pub label : Bytes → Result Error (Unit {0})
label value = if leb (length value) 64 then ok tt else err malformed

unfoldable pub domain_input : Bytes → Bytes → Bytes
domain_input domain payload = domain ++ (0 ∷ payload)

module _ (x : Crypto) where
  open x use {
    Point, Scalar, from_sec1_bytes, to_encoded_point, signature_from_slice, normalize_s,
    verify_message, sha256, hkdf_extract, hkdf_expand,
  }

  -- The hasher is fed the domain, a zero byte and the payload.
  unfoldable pub hash : Bytes → Bytes → Bytes
  unfolding domain_input
  hash domain payload = sha256 (domain_input domain payload)

  unfoldable pub sign : P256Signer → Bytes → Bytes → Result Error Bytes
  sign key domain payload = key.sign_prehash (hash domain payload)

  unfoldable pub verify : Point → Bytes → Bytes → Bytes → Result Error (Unit {0})
  verify key domain payload bytes = do
    signature ← ok_or (signature_from_slice bytes) invalid_signature
    refuse (elim (normalize_s signature) [ none ↦ false | some low ↦ true ]) invalid_signature
    ensure (verify_message key (domain_input domain payload) signature) invalid_signature

  unfoldable pub session_key : Bytes → Bytes → Bytes → Result Error Bytes
  session_key shared digest nonce =
      ok_or (hkdf_expand (hkdf_extract (digest ++ nonce) shared) session_info 32) key_derivation

  unfoldable pub verifying : Bytes → Result Error Point
  verifying bytes = ok_or (from_sec1_bytes bytes) invalid_public_key

  unfoldable pub encode_public : Point → Bytes
  encode_public key = to_encoded_point key true

  -- `public`
  unfoldable pub public_point : Bytes → Result Error Point
  unfolding has_compressed_tag encode_public
  public_point bytes = do
    ensure (has_compressed_tag bytes) invalid_public_key
    k ← ok_or (from_sec1_bytes bytes) invalid_public_key
    ensure (bytes_eq (encode_public k) bytes) invalid_public_key
    ok k
