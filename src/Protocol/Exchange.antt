-- ===== src/Protocol/Exchange.antt =====
-- crates/core/src/protocol/mod.rs: accepting a request on the phone and a response on the desktop,
-- over any replay store.
pub mod Delivery
pub mod Checks
pub mod Replayed
pub mod Acceptance
use age_plugin_phone.Base.{
  ℕ, Bool, true, false, not, ◌&&◌, ◌||◌, Option, some, none, Bytes, bytes_eq, length, ◌==◌, Result,
  ok, err, ok_or, ensure, refuse,
}
use age_plugin_phone.Base.Exec.{Exec, ◌>>=◌, ◌>>◌, lift}
use age_plugin_phone.Cbor.{Cbor}
use age_plugin_phone.Crypto.{Crypto}
use age_plugin_phone.Recipient.{zero_nonce}
use age_plugin_phone.Protocol.{
  Error, wrong_desktop, wrong_identity, binding_mismatch, key_derivation, decryption, UnwrapRequest,
  UnwrapResponse, Signed, PairingRecord, VerifiedRequest,
}
use age_plugin_phone.Protocol.Time.{validate_request_time}
use age_plugin_phone.Protocol.Signing.{
  request_sig, response_sig, request_digest_domain, hash, verify, session_key, verifying,
  public_point,
}
use age_plugin_phone.Protocol.Encode.{encode_request, encode_response, response_aad}
use age_plugin_phone.Protocol.Decode.{validate_request}
use age_plugin_phone.Protocol.Messages.{encode_signed_request, encode_signed_response}
use age_plugin_phone.Replay.{ReplayStore}

module _ (c : Cbor) (x : Crypto) {S : Type 0} (store : ReplayStore S) where
  unfoldable pub verify_request_with_replay :
      Signed UnwrapRequest → PairingRecord → ℕ → Exec S Error VerifiedRequest
  verify_request_with_replay request pairing now = do
    lift (validate_request x request.payload)
    lift (ensure (bytes_eq request.payload.desktop_id pairing.desktop_id) wrong_desktop)
    lift (ensure (bytes_eq request.payload.identity_id pairing.identity_id) wrong_identity)
    lift (validate_request_time request.payload.expires_at_unix now)
    key ← lift (verifying x pairing.desktop_signing_public_key)
    lift (verify x key request_sig (encode_request c request.payload) request.signature)
    let digest = hash x request_digest_domain (encode_signed_request c x request)
    store.consume_request pairing.desktop_id pairing.identity_id request.payload.request_id
        request.payload.nonce request.payload.expires_at_unix now
    lift (ok (record { signed = request; digest = digest }))

  -- The response answers this request of this pairing.
  unfoldable pub is_bound : UnwrapResponse → VerifiedRequest → PairingRecord → Bool
  is_bound p request pairing =
      bytes_eq p.request_id request.signed.payload.request_id
      && (bytes_eq p.request_digest request.digest
          && (bytes_eq p.identity_id pairing.identity_id
              && bytes_eq p.desktop_id pairing.desktop_id))

  unfoldable pub open_response :
      Signed UnwrapResponse → VerifiedRequest → PairingRecord → x.Scalar → ℕ → Exec S Error Bytes
  unfolding is_bound
  open_response response request pairing desktop_session now = do
    lift (validate_request_time request.signed.payload.expires_at_unix now)
    lift (ensure (is_bound response.payload request pairing) binding_mismatch)
    verification_key ← lift (verifying x pairing.phone_signing_public_key)
    lift (
        verify x verification_key response_sig (encode_response c response.payload)
          response.signature)
    phone_session ← lift (public_point x response.payload.phone_session_public_key)
    let shared = x.diffie_hellman desktop_session phone_session
    key ← lift (session_key x shared response.payload.request_digest response.payload.nonce)
    cipher ← lift (ok_or (x.cipher_from_slice key) key_derivation)
    plaintext ← lift (
        ok_or
          (x.decrypt cipher zero_nonce response.payload.encrypted_file_key
            (response_aad c response.payload))
          decryption)
    lift (ensure (length plaintext == 16) decryption)
    store.consume_response pairing.desktop_id pairing.identity_id
        (hash x response_sig (encode_signed_response c x response))
        request.signed.payload.expires_at_unix now
    lift (ok plaintext)
