-- ===== src/Protocol/Exchange/Delivery.antt =====
-- A file key that the phone seals for a request reaches the desktop that holds the session key:
-- `seal_response` and `open_response` of crates/core/src/protocol/mod.rs.
use age_plugin_phone.Base.{
  ℕ, ◌≡◌, refl, ap, ◌∙◌, ok_injective, Bytes, true, some, none, [], ◌++◌, arith, bytes_eq_refl,
  length, ok,
}
use mathlib.Core.Path.{subst}
use age_plugin_phone.Base.Exec.{◌>>◌, lift}
use age_plugin_phone.Cbor.{Cbor}
use age_plugin_phone.Crypto.{Crypto, IsCrypto}
use age_plugin_phone.Recipient.{zero_nonce}
use age_plugin_phone.Recipient.Keys.{has_compressed_tag_lem}
use age_plugin_phone.Protocol.{UnwrapResponse, Signed, PairingRecord, VerifiedRequest}
use age_plugin_phone.Protocol.Time.{validate_request_time}
use age_plugin_phone.Protocol.Signing.{
  P256Signer, response_sig, session_info, domain_input, hash, sign, verify, session_key, verifying,
  encode_public, public_point,
}
use age_plugin_phone.Protocol.Encode.{encode_response, response_aad}
use age_plugin_phone.Protocol.Messages.{
  encode_signed_response, blank_response, seal_shared, seal_response,
}
use age_plugin_phone.Protocol.Exchange.{is_bound, open_response}
use age_plugin_phone.Replay.{ReplayStore}

module _ (x : Crypto) where
  -- The platform key of `key`: it signs the digest of any message with a signature of 64 bytes in
  -- low-S form that verifies for the message.
  abbrev pub IsSigner : x.Point → P256Signer → Type 0
  IsSigner key signer =
      (message : Bytes)
      → (bytes : Bytes) × (signature : x.Signature) × (signer.sign_prehash (x.sha256 message)
          ≡ ok bytes)
        × (length bytes ≡ 64)
        × (x.signature_from_slice bytes ≡ some signature)
        × (x.normalize_s signature ≡ none)
        × (x.verify_message key message signature ≡ true)

  pub sign-verify :
      (key : x.Point) (signer : P256Signer) (domain payload : Bytes)
      → IsSigner key signer
      → (bytes : Bytes) × (sign x signer domain payload ≡ ok bytes)
        × (length bytes ≡ 64)
        × (verify x key domain payload bytes ≡ ok tt)
  unfolding sign hash verify
  sign-verify key signer domain payload s =
      let (bytes, signature, e1, e2, e3, e4, e5) = s (domain_input domain payload) in
      (bytes, e1, e2, ground arith)

  -- A signature that the holder of the key makes verifies and has 64 bytes.
  pub signed_ok :
      (key : x.Point) (signer : P256Signer) (domain payload signature : Bytes)
      → IsSigner key signer
      → sign x signer domain payload ≡ ok signature
      → (verify x key domain payload signature ≡ ok tt) × (length signature ≡ 64)
  signed_ok key signer domain payload signature signs e =
      let (bytes, made, l, checks) = sign-verify key signer domain payload signs in
      let same = ok_injective bytes signature (sign x signer domain payload) made e in
      (
        subst (λ b. verify x key domain payload b ≡ ok tt) same checks,
        subst (λ (b : Bytes). length b ≡ 64) same l,
      )

  module _ (h : IsCrypto x) where
    pub public_point-encode_public : (p : x.Point) → public_point x (encode_public x p) ≡ ok p
    unfolding public_point encode_public
    public_point-encode_public p = rw (
      has_compressed_tag_lem x (x.to_encoded_point p true) (h.compressed_tag p),
      h.from_sec1_law p true,
      bytes_eq_refl (x.to_encoded_point p true),
    )

    pub session_key_total :
        (shared digest nonce : Bytes)
        → (key : Bytes) × (session_key x shared digest nonce ≡ ok key) × (length key ≡ 32)
    unfolding session_key
    session_key_total shared digest nonce =
        let (key, e, l) =
          h.hkdf_expand_law (x.hkdf_extract (digest ++ nonce) shared) session_info 32
            (h.hkdf_extract_length (digest ++ nonce) shared) (omega arith) in
        (key, rw e, l)

module _ (c : Cbor) (x : Crypto) where
  -- The response that carries `sealed`.
  abbrev carrying : VerifiedRequest → x.Point → Bytes → Bytes → UnwrapResponse
  carrying request phone nonce sealed =
      record (blank_response c x request (encode_public x phone) nonce) {
        encrypted_file_key = sealed;
      }

  module _ (request : VerifiedRequest) (phone_point desktop_point : x.Point)
      (file_key nonce key sealed signature : Bytes) (cipher : x.Cipher)
      (built : x.cipher_from_slice key ≡ some cipher) where
    seal_step :
        (phone : x.Scalar) (signer : P256Signer)
        → x.public_key phone ≡ phone_point
        → public_point x request.signed.payload.session_public_key ≡ ok desktop_point
        → session_key x (x.diffie_hellman phone desktop_point) request.digest nonce ≡ ok key
        → x.encrypt cipher zero_nonce file_key
            (response_aad c (carrying request phone_point nonce sealed))
          ≡ some sealed
        → length sealed ≡ 32
        → sign x signer response_sig (encode_response c (carrying request phone_point nonce sealed))
          ≡ ok signature
        → seal_response c x request file_key signer phone nonce
          ≡ ok (record {
            payload = carrying request phone_point nonce sealed;
            signature = signature;
          })
    unfolding seal_response seal_shared blank_response response_aad
    seal_step phone signer e0 e1 e2 e3 e4 e5 = rw (e0, e1, e2, built, e3, e4, e5)

  open_step :
      {S : Type 0} (store : ReplayStore S) (v : Signed UnwrapResponse) (request : VerifiedRequest)
      (pairing : PairingRecord) (desktop : x.Scalar) (now : ℕ) (phone_key phone_point : x.Point)
      (key file_key : Bytes) (cipher : x.Cipher) (s : S)
      → validate_request_time request.signed.payload.expires_at_unix now ≡ ok tt
      → is_bound c x store v.payload request pairing ≡ true
      → verifying x pairing.phone_signing_public_key ≡ ok phone_key
      → verify x phone_key response_sig (encode_response c v.payload) v.signature ≡ ok tt
      → public_point x v.payload.phone_session_public_key ≡ ok phone_point
      → session_key x
          (x.diffie_hellman desktop phone_point)
          v.payload.request_digest
          v.payload.nonce
        ≡ ok key
      → x.cipher_from_slice key ≡ some cipher
      → x.decrypt cipher zero_nonce v.payload.encrypted_file_key (response_aad c v.payload)
        ≡ some file_key
      → length file_key ≡ 16
      → open_response c x store v request pairing desktop now s
        ≡ (store.consume_response pairing.desktop_id pairing.identity_id
                (hash x response_sig (encode_signed_response c x v))
                request.signed.payload.expires_at_unix
                now
              >> lift (ok file_key))
            s
  unfolding open_response
  open_step store v request pairing desktop now phone_key phone_point key file_key cipher s e1 e2 e3
        e4 e5 e6 e7 e8 e9 =
      rw (e1, e2, e3, e4, e5, e6, e7, e8, e9)

  -- What the phone seals answers the request of the pairing that it came from.
  carrying_bound :
      {S : Type 0} (store : ReplayStore S) (request : VerifiedRequest) (pairing : PairingRecord)
      (phone : x.Point) (nonce sealed : Bytes)
      → request.signed.payload.identity_id ≡ pairing.identity_id
      → request.signed.payload.desktop_id ≡ pairing.desktop_id
      → is_bound c x store (carrying request phone nonce sealed) request pairing ≡ true
  unfolding is_bound blank_response
  carrying_bound store request pairing phone nonce sealed e1 e2 = rw (
    e1,
    e2,
    bytes_eq_refl request.signed.payload.request_id,
    bytes_eq_refl request.digest,
    bytes_eq_refl pairing.identity_id,
    bytes_eq_refl pairing.desktop_id,
  )

  module _ (h : IsCrypto x) {S : Type 0} (store : ReplayStore S) (request : VerifiedRequest)
      (pairing : PairingRecord) (desktop phone : x.Scalar) (phone_key : x.Point)
      (signer : P256Signer) (file_key nonce : Bytes) (now : ℕ) (signs : IsSigner x phone_key signer)
      (trusted : verifying x pairing.phone_signing_public_key ≡ ok phone_key)
      (session : request.signed.payload.session_public_key ≡ encode_public x (x.public_key desktop))
      (same_identity : request.signed.payload.identity_id ≡ pairing.identity_id)
      (same_desktop : request.signed.payload.desktop_id ≡ pairing.desktop_id)
      (in_time : validate_request_time request.signed.payload.expires_at_unix now ≡ ok tt)
      (key_length : length file_key ≡ 16) where
    -- The phone seals any 16-byte file key for a request of the pairing, and the desktop that holds
    -- the secret of the request's session key opens the response to that file key, exactly when its
    -- replay store takes the digest of the response: the outcome and the store are those of the
    -- consumption. The clock is within the validity of the request, and the signer is the phone's.
    pub seal_response-open_response :
        (response : Signed UnwrapResponse) × (seal_response c x request file_key signer phone nonce
          ≡ ok response)
        × ((s : S)
            → open_response c x store response request pairing desktop now s
              ≡ (store.consume_response pairing.desktop_id pairing.identity_id
                      (hash x response_sig (encode_signed_response c x response))
                      request.signed.payload.expires_at_unix
                      now
                    >> lift (ok file_key))
                  s)
    unfolding blank_response response_aad
    seal_response-open_response =
        let phone_point = x.public_key phone in
        let desktop_point = x.public_key desktop in
        let shared = x.diffie_hellman phone desktop_point in
        let (key, keyed, l) = session_key_total x h shared request.digest nonce in
        let (cipher, built) = h.cipher_law key l in
        let (sealed, sealing, size, opening) =
          h.aead_law cipher zero_nonce file_key
            (response_aad c (carrying request phone_point nonce [])) refl (omega arith) in
        let payload = carrying request phone_point nonce sealed in
        let (signature, signed, _, verified) =
          sign-verify x phone_key signer response_sig (encode_response c payload) signs in
        let response : Signed UnwrapResponse = record {
          payload = payload;
          signature = signature;
        } in
        let session_point : public_point x request.signed.payload.session_public_key
            ≡ ok desktop_point =
          ap (public_point x) session ∙ public_point-encode_public x h desktop_point in
        let same_shared : x.diffie_hellman desktop phone_point ≡ shared =
          h.diffie_hellman_law desktop phone in
        let rekeyed : session_key x (x.diffie_hellman desktop phone_point) request.digest nonce
            ≡ ok key =
          rw same_shared keyed in
        (
          response,
          seal_step request phone_point desktop_point file_key nonce key sealed signature cipher
              built phone signer refl session_point keyed sealing (omega (arith, size)) signed,
          λ s.
              open_step store response request pairing desktop now phone_key phone_point key
                file_key cipher s in_time
                (carrying_bound store request pairing phone_point nonce sealed same_identity
                  same_desktop)
                trusted verified (public_point-encode_public x h phone_point) rekeyed built opening
                key_length,
        )
