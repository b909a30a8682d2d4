-- ===== src/Protocol/Messages.antt =====
-- crates/core/src/protocol/mod.rs: the signed messages, and sealing a file key for a request.
pub mod Wire
use age_plugin_phone.Base.{
  ℕ, Bool, true, false, not, ◌&&◌, ◌||◌, Option, some, none, List, [], ◌∷◌, ◌++◌, Bytes, bytes_eq,
  length, replicate, ◌==◌, if◌then◌else◌, Result, ok, err, ok_or, ensure, refuse, ◌>>=◌, ◌>>◌,
}
use age_plugin_phone.Cbor.{Cbor}
use age_plugin_phone.Crypto.{Crypto}
use age_plugin_phone.Recipient.{parse_recipient, public_key_bytes, zero_nonce}
use age_plugin_phone.Recipient.Stanza.{map_err}
use age_plugin_phone.Protocol.{
  Error, invalid_public_key, binding_mismatch, invalid_recipient_stanza, key_derivation, decryption,
  wrong_desktop, wrong_identity, PairingOffer, PairingResponse, UnwrapRequest, UnwrapResponse,
  Signed, PairingRecord, VerifiedRequest,
}
use age_plugin_phone.Protocol.Time.{validate_request_time}
use age_plugin_phone.Protocol.Signing.{
  P256Signer, offer_sig, pairing_sig, request_sig, response_sig, request_digest_domain,
  offer_digest_domain, fingerprint_domain, label, hash, sign, verify, session_key, verifying,
  encode_public, public_point,
}
use age_plugin_phone.Protocol.Encode.{
  encode_offer, encode_pairing_response, encode_request, encode_response, response_aad,
  encode_signed,
}
use age_plugin_phone.Protocol.Decode.{
  canonical, decode_signed, decode_offer, decode_pairing_response, decode_request, decode_response,
  validate_request, validate_pairing_response,
}

module _ (c : Cbor) (x : Crypto) where
  open x use {Point, Scalar, public_key, diffie_hellman, cipher_from_slice, encrypt}

  -- SignedPairingOffer
  unfoldable pub sign_offer : PairingOffer → P256Signer → Result Error (Signed PairingOffer)
  sign_offer payload key = do
    label payload.desktop_label
    own ← key.public_key
    ensure (bytes_eq own payload.desktop_signing_public_key) invalid_public_key
    _ ← public_point x payload.desktop_selection_public_key
    refuse (bytes_eq payload.desktop_selection_public_key payload.desktop_signing_public_key)
        invalid_public_key
    signature ← sign x key offer_sig (encode_offer c payload)
    ok (record { payload = payload; signature = signature })

  unfoldable pub verify_offer : Signed PairingOffer → Result Error (Unit {0})
  verify_offer offer = do
    label offer.payload.desktop_label
    _ ← public_point x offer.payload.desktop_selection_public_key
    refuse
        (bytes_eq offer.payload.desktop_selection_public_key
          offer.payload.desktop_signing_public_key)
        invalid_public_key
    key ← verifying x offer.payload.desktop_signing_public_key
    verify x key offer_sig (encode_offer c offer.payload) offer.signature

  unfoldable pub encode_signed_offer : Signed PairingOffer → Bytes
  encode_signed_offer offer = encode_signed c (encode_offer c offer.payload) offer.signature

  unfoldable pub decode_signed_offer : Bytes → Result Error (Signed PairingOffer)
  decode_signed_offer bytes = do
    (p, signature) ← decode_signed c bytes
    payload ← decode_offer c p
    let value : Signed PairingOffer = record { payload = payload; signature = signature }
    canonical bytes (encode_signed_offer value)
    ok value

  unfoldable pub offer_digest : Signed PairingOffer → Bytes
  offer_digest offer = hash x offer_digest_domain (encode_signed_offer offer)

  -- SignedPairingResponse
  unfoldable pub sign_pairing_response :
      PairingResponse → P256Signer → Result Error (Signed PairingResponse)
  sign_pairing_response payload key = do
    validate_pairing_response x payload
    own ← key.public_key
    ensure (bytes_eq own payload.phone_signing_public_key) invalid_public_key
    signature ← sign x key pairing_sig (encode_pairing_response c payload)
    ok (record { payload = payload; signature = signature })

  -- One of the phone's keys is one of the desktop's.
  unfoldable pub shares_key : PairingOffer → Bytes → Bool
  shares_key offer key =
      bytes_eq key offer.desktop_signing_public_key
      || bytes_eq key offer.desktop_selection_public_key

  unfoldable pub verify_pairing_response :
      Signed PairingResponse → Signed PairingOffer → Result Error (Unit {0})
  unfolding shares_key
  verify_pairing_response response offer = do
    verify_offer offer
    validate_pairing_response x response.payload
    ensure (bytes_eq response.payload.offer_digest (offer_digest offer)) binding_mismatch
    identity ← map_err (parse_recipient x response.payload.recipient) invalid_recipient_stanza
    refuse
        (shares_key offer.payload (public_key_bytes x identity)
          || shares_key offer.payload response.payload.phone_signing_public_key)
        invalid_public_key
    key ← verifying x response.payload.phone_signing_public_key
    verify x key pairing_sig (encode_pairing_response c response.payload) response.signature

  unfoldable pub encode_signed_pairing_response : Signed PairingResponse → Bytes
  encode_signed_pairing_response response =
      encode_signed c (encode_pairing_response c response.payload) response.signature

  unfoldable pub decode_signed_pairing_response : Bytes → Result Error (Signed PairingResponse)
  decode_signed_pairing_response bytes = do
    (p, signature) ← decode_signed c bytes
    payload ← decode_pairing_response c x p
    let value : Signed PairingResponse = record { payload = payload; signature = signature }
    canonical bytes (encode_signed_pairing_response value)
    ok value

  unfoldable pub pairing_fingerprint : Signed PairingOffer → Signed PairingResponse → Bytes
  pairing_fingerprint offer response =
      hash x fingerprint_domain
        (encode_signed_offer offer ++ encode_signed_pairing_response response)

  -- SignedUnwrapRequest
  unfoldable pub sign_request : UnwrapRequest → P256Signer → Result Error (Signed UnwrapRequest)
  sign_request payload key = do
    validate_request x payload
    signature ← sign x key request_sig (encode_request c payload)
    ok (record { payload = payload; signature = signature })

  unfoldable pub encode_signed_request : Signed UnwrapRequest → Bytes
  encode_signed_request request =
      encode_signed c (encode_request c request.payload) request.signature

  unfoldable pub decode_signed_request : Bytes → Result Error (Signed UnwrapRequest)
  decode_signed_request bytes = do
    (p, signature) ← decode_signed c bytes
    payload ← decode_request c x p
    let value : Signed UnwrapRequest = record { payload = payload; signature = signature }
    canonical bytes (encode_signed_request value)
    ok value

  unfoldable pub create_request :
      UnwrapRequest → P256Signer → PairingRecord → ℕ → Result Error VerifiedRequest
  create_request payload signing_key pairing now = do
    ensure (bytes_eq payload.desktop_id pairing.desktop_id) wrong_desktop
    ensure (bytes_eq payload.identity_id pairing.identity_id) wrong_identity
    own ← signing_key.public_key
    ensure (bytes_eq own pairing.desktop_signing_public_key) invalid_public_key
    validate_request_time payload.expires_at_unix now
    signed ← sign_request payload signing_key
    ok (record {
      signed = signed;
      digest = hash x request_digest_domain (encode_signed_request signed);
    })

  -- SignedUnwrapResponse
  unfoldable pub encode_signed_response : Signed UnwrapResponse → Bytes
  encode_signed_response response =
      encode_signed c (encode_response c response.payload) response.signature

  unfoldable pub decode_signed_response : Bytes → Result Error (Signed UnwrapResponse)
  decode_signed_response bytes = do
    (p, signature) ← decode_signed c bytes
    payload ← decode_response c x p
    let value : Signed UnwrapResponse = record { payload = payload; signature = signature }
    canonical bytes (encode_signed_response value)
    ok value

  -- The response with no ciphertext yet.
  unfoldable pub blank_response : VerifiedRequest → Bytes → Bytes → UnwrapResponse
  blank_response request phone_public nonce = record {
    request_id = request.signed.payload.request_id;
    request_digest = request.digest;
    identity_id = request.signed.payload.identity_id;
    desktop_id = request.signed.payload.desktop_id;
    phone_session_public_key = phone_public;
    nonce = nonce;
    encrypted_file_key = replicate 32 0;
  }

  unfoldable pub seal_shared :
      VerifiedRequest
      → Bytes
      → P256Signer
      → Point
      → Bytes
      → Bytes
      → Result Error (Signed UnwrapResponse)
  seal_shared request file_key phone_signing phone_public shared nonce = do
    let blank = blank_response request (encode_public x phone_public) nonce
    key ← session_key x shared blank.request_digest blank.nonce
    cipher ← ok_or (cipher_from_slice key) key_derivation
    sealed ← ok_or (encrypt cipher zero_nonce file_key (response_aad c blank)) decryption
    ensure (length sealed == 32) decryption
    let payload : UnwrapResponse = record blank { encrypted_file_key = sealed }
    signature ← sign x phone_signing response_sig (encode_response c payload)
    ok (record { payload = payload; signature = signature })

  -- `seal_response_with_ephemeral`; `seal_response` draws the scalar and the nonce.
  unfoldable pub seal_response :
      VerifiedRequest → Bytes → P256Signer → Scalar → Bytes → Result Error (Signed UnwrapResponse)
  seal_response request file_key phone_signing phone_session nonce = do
    desktop ← public_point x request.signed.payload.session_public_key
    seal_shared request file_key phone_signing (public_key phone_session)
        (diffie_hellman phone_session desktop) nonce
