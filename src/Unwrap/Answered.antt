-- ===== src/Unwrap/Answered.antt =====
-- crates/desktop/src/unwrap.rs: a request that the phone answers, from `begin` to the file key.
use age_plugin_phone.Base.{
  ℕ, ◌≡◌, refl, sym, ap, ◌∙◌, false, Option, Bytes, bytes_eq, length, ◌==◌, ==_iff, ok, ok_or,
  ensure, ensure-ok, ok_injective, ok_step, ok_after,
}
use mathlib.Core.Path.{subst}
use age_plugin_phone.Base.Exec.{◌>>◌, lift}
use age_plugin_phone.Cbor.{Cbor, IsCbor}
use age_plugin_phone.Crypto.{Crypto, IsCrypto}
use age_plugin_phone.Recipient.{TaggedStanza, zero_nonce}
use age_plugin_phone.Recipient.Stanza.{map_err, map_err-ok}
use age_plugin_phone.Protocol.{
  wrong_desktop, wrong_identity, invalid_public_key, key_derivation, decryption, UnwrapRequest,
  UnwrapResponse, Signed, PairingRecord, VerifiedRequest,
}
use age_plugin_phone.Protocol.Time.{validate_request_time, request_expiry}
use age_plugin_phone.Protocol.Signing.{
  P256Signer, request_sig, response_sig, hash, sign, session_key, verifying, encode_public,
  public_point,
}
use age_plugin_phone.Protocol.Encode.{encode_request, encode_response, response_aad}
use age_plugin_phone.Protocol.Decode.{validate_request}
use age_plugin_phone.Protocol.RoundTrip.{FitsRequest, FitsResponse}
use age_plugin_phone.Protocol.Messages.{
  create_request, sign_request, decode_signed_request, encode_signed_response,
  decode_signed_response, blank_response, seal_shared, seal_response,
}
use age_plugin_phone.Protocol.Messages.Wire.{
  decode_signed_request-encode_signed_request, decode_signed_response-encode_signed_response,
}
use age_plugin_phone.Protocol.Exchange.{verify_request_with_replay, open_response}
use age_plugin_phone.Protocol.Exchange.Delivery.{
  IsSigner, signed_ok, public_point-encode_public, seal_response-open_response,
}
use age_plugin_phone.Protocol.Exchange.Acceptance.{
  sign_request_ok, create_request-verify_request_with_replay,
}
use age_plugin_phone.Replay.{ReplayStore}
use age_plugin_phone.Pairing.{PublicIdentityStub}
use age_plugin_phone.Unwrap.{
  UnwrapError, DesktopKeyState, DesktopUnwrapSession, check_desktop, pairing_of, close, begin,
  signed_request, receive_response,
}

module _ (c : Cbor) (x : Crypto) where
  -- The payload of a request that `begin` makes.
  abbrev asked :
      PublicIdentityStub
      → TaggedStanza
      → Option Bytes
      → x.Scalar
      → Bytes
      → Bytes
      → ℕ
      → UnwrapRequest
  asked stub stanza caller_hint secret request_id nonce expires = record {
    request_id = request_id;
    identity_id = stub.identity_id;
    desktop_id = stub.desktop_id;
    session_public_key = encode_public x (x.public_key secret);
    recipient_stanza = stanza;
    nonce = nonce;
    expires_at_unix = expires;
    caller_hint = caller_hint;
  }

  -- The session holds the secret, the pairing of the stub and a request for it.
  abbrev Begun :
      PublicIdentityStub
      → P256Signer
      → ℕ
      → x.Scalar
      → UnwrapRequest
      → DesktopUnwrapSession x
      → Type 0
  Begun stub signer now secret payload s =
      (create_request c x payload signer (pairing_of stub) now ≡ ok s.request)
      × (s ≡ record {
        request = s.request;
        desktop_session = secret;
        pairing = pairing_of stub;
        closed = false;
      })

  begin_ok :
      (stub : PublicIdentityStub) (desktop : DesktopKeyState) (stanza : TaggedStanza)
      (caller_hint : Option Bytes) (now : ℕ) (secret : x.Scalar) (request_id nonce : Bytes)
      (s : DesktopUnwrapSession x)
      → begin c x stub desktop stanza caller_hint now secret request_id nonce ≡ ok s
      → (expires : ℕ) × Begun stub desktop.signer now secret
          (asked stub stanza caller_hint secret request_id nonce expires)
          s
  unfolding begin
  begin_ok stub desktop stanza caller_hint now secret request_id nonce s =
      let payload = asked stub stanza caller_hint secret request_id nonce in
      let P : DesktopUnwrapSession x → Type 0 =
        λ t. (expires : ℕ) × Begun stub desktop.signer now secret (payload expires) t in
      ok_after (P s) (check_desktop stub desktop) _ (λ _.
        ok_after (P s) (map_err (request_expiry now) UnwrapError.request) _ (λ expires.
          let made = create_request c x (payload expires) desktop.signer (pairing_of stub) now in
          ok_step (P s) (map_err made UnwrapError.request) _ (λ request e f.
            let begun : DesktopUnwrapSession x = record {
              request = request;
              desktop_session = secret;
              pairing = pairing_of stub;
              closed = false;
            } in
            subst P (ok_injective begun s (ok begun) refl f)
              (expires, (map_err-ok made UnwrapError.request request e, refl)))))

  sign_request-length :
      (payload : UnwrapRequest) (signer : P256Signer) (key : x.Point)
      (signed : Signed UnwrapRequest)
      → IsSigner x key signer
      → sign_request c x payload signer ≡ ok signed
      → length signed.signature ≡ 64
  unfolding sign_request
  sign_request-length payload signer key signed signs =
      let P : Type 0 = length signed.signature ≡ 64 in
      ok_after P (validate_request x payload) _ (λ _.
        ok_step P (sign x signer request_sig (encode_request c payload)) _ (λ signature e f.
          let made : Signed UnwrapRequest = record { payload = payload; signature = signature } in
          subst (λ (r : Signed UnwrapRequest). length r.signature ≡ 64)
            (ok_injective made signed (ok made) refl f)
            (signed_ok x key signer request_sig (encode_request c payload) signature signs e).1))

  -- A created request is for its payload, which passed the checks, and its signature has 64 bytes.
  abbrev Created : UnwrapRequest → PairingRecord → VerifiedRequest → Type 0
  Created payload pairing v =
      (v.signed.payload ≡ payload)
      × (validate_request x payload ≡ ok tt)
      × (length v.signed.signature ≡ 64)
      × (length v.digest ≡ 32)

  create_request_ok :
      IsCrypto x
      → (payload : UnwrapRequest) (signer : P256Signer) (key : x.Point) (pairing : PairingRecord)
        (now : ℕ) (v : VerifiedRequest)
      → IsSigner x key signer
      → create_request c x payload signer pairing now ≡ ok v
      → Created payload pairing v
  unfolding create_request hash
  create_request_ok hx payload signer key pairing now v signs =
      let P : Type 0 = Created payload pairing v in
      ok_after P (ensure (bytes_eq payload.desktop_id pairing.desktop_id) wrong_desktop) _ (λ _.
        ok_after P (ensure (bytes_eq payload.identity_id pairing.identity_id) wrong_identity) _
          (λ _. ok_after P signer.public_key _ (λ own.
            ok_after P (ensure (bytes_eq own pairing.desktop_signing_public_key) invalid_public_key)
              _
              (λ _. ok_after P (validate_request_time payload.expires_at_unix now) _ (λ _.
                ok_step P (sign_request c x payload signer) _ (λ signed e f.
                  let (valid, same, _) = sign_request_ok c x payload signer key signed signs e in
                  let l = sign_request-length payload signer key signed signs e in
                  subst (Created payload pairing) (ok_injective _ v (ok _) refl f)
                    (same, valid, l, hx.sha256_length _)))))))

  -- What sealing a file key says of the response.
  abbrev Sealed : VerifiedRequest → x.Scalar → Bytes → Signed UnwrapResponse → Type 0
  Sealed request phone nonce response =
      (sealed : Bytes) × (length sealed ≡ 32)
      × (response.payload
          ≡ record (blank_response c x request (encode_public x (x.public_key phone)) nonce) {
            encrypted_file_key = sealed;
          })
      × (length response.signature ≡ 64)

  seal_response_ok :
      (request : VerifiedRequest) (file_key : Bytes) (signer : P256Signer) (key : x.Point)
      (phone : x.Scalar) (nonce : Bytes) (response : Signed UnwrapResponse)
      → IsSigner x key signer
      → seal_response c x request file_key signer phone nonce ≡ ok response
      → Sealed request phone nonce response
  unfolding seal_response seal_shared
  seal_response_ok request file_key signer key phone nonce response signs =
      let P : Type 0 = Sealed request phone nonce response in
      let blank = blank_response c x request (encode_public x (x.public_key phone)) nonce in
      ok_after P (public_point x request.signed.payload.session_public_key) _ (λ desktop.
        let shared = x.diffie_hellman phone desktop in
        ok_after P (session_key x shared blank.request_digest blank.nonce) _ (λ secret.
          ok_after P (ok_or (x.cipher_from_slice secret) key_derivation) _ (λ cipher.
            ok_after P
              (ok_or (x.encrypt cipher zero_nonce file_key (response_aad c blank)) decryption) _
              (λ sealed. ok_step P (ensure (length sealed == 32) decryption) _ (λ u l.
                let payload : UnwrapResponse = record blank { encrypted_file_key = sealed } in
                ok_step P (sign x signer response_sig (encode_response c payload)) _
                  (λ signature e f.
                    let made : Signed UnwrapResponse = record {
                      payload = payload;
                      signature = signature;
                    } in
                    let size : length sealed ≡ 32 =
                      (==_iff (length sealed) 32).0 (ensure-ok _ _ u l) in
                    subst (Sealed request phone nonce) (ok_injective made response (ok made) refl f)
                      (
                        sealed,
                        size,
                        refl,
                        (signed_ok x key signer response_sig (encode_response c payload) signature
                            signs e).1,
                      )))))))

  -- The signed request of a session that has begun is read back by the phone from its bytes, and the
  -- phone accepts it at that time exactly when its replay store takes the identifier and the nonce,
  -- and then has the request that the session holds. The signer is that of the stub's desktop key,
  -- and the fields have the sizes of their types.
  pub begin-verify_request_with_replay :
      IsCbor c
      → IsCrypto x
      → {P : Type 0} (store : ReplayStore P) (stub : PublicIdentityStub) (desktop : DesktopKeyState)
        (stanza : TaggedStanza) (caller_hint : Option Bytes) (now : ℕ) (secret : x.Scalar)
        (request_id nonce : Bytes) (key : x.Point) (s : DesktopUnwrapSession x) (p : P)
      → IsSigner x key desktop.signer
      → verifying x stub.desktop_signing_public_key ≡ ok key
      → begin c x stub desktop stanza caller_hint now secret request_id nonce ≡ ok s
      → FitsRequest c s.request.signed.payload
      → (decode_signed_request c x (signed_request c x s) ≡ ok s.request.signed)
        × (verify_request_with_replay c x store s.request.signed (pairing_of stub) now p
            ≡ (store.consume_request stub.desktop_id stub.identity_id request_id nonce
                    s.request.signed.payload.expires_at_unix now
                  >> lift (ok s.request))
                p)
  unfolding signed_request
  begin-verify_request_with_replay hc hx store stub desktop stanza caller_hint now secret request_id
        nonce key s p signs trusted begun fits =
      let (expires, (created, _)) =
        begin_ok stub desktop stanza caller_hint now secret request_id nonce s begun in
      let payload = asked stub stanza caller_hint secret request_id nonce expires in
      let pairing = pairing_of stub in
      let (same, valid, l, _) =
        create_request_ok hx payload desktop.signer key pairing now s.request signs created in
      (
        decode_signed_request-encode_signed_request c hc x s.request.signed fits
            (subst (λ q. validate_request x q ≡ ok tt) (sym same) valid) l,
        create_request-verify_request_with_replay c x store payload desktop.signer pairing now key
              s.request p signs trusted created
            ∙ ap
                (λ (q : UnwrapRequest).
                  (store.consume_request stub.desktop_id stub.identity_id request_id nonce
                        q.expires_at_unix now
                      >> lift (ok s.request))
                    p)
                (sym same),
      )

  module _ (hc : IsCbor c) (hx : IsCrypto x) {S : Type 0} (store : ReplayStore S) where
    receive_lem :
        (s : DesktopUnwrapSession x) (replay after : S) (now : ℕ) (response : Signed UnwrapResponse)
        (file_key encoded : Bytes)
        → s.closed ≡ false
        → decode_signed_response c x encoded ≡ ok response
        → open_response c x store response s.request s.pairing s.desktop_session now replay
          ≡ (ok file_key, after)
        → receive_response c x store encoded now (s, replay) ≡ (ok file_key, (close x s, after))
    unfolding receive_response
    receive_lem s replay after now response file_key encoded e1 e2 e3 = rw (e1, e2, e3) refl

    decode-Sealed :
        (request : VerifiedRequest) (phone : x.Scalar) (nonce : Bytes)
        (response : Signed UnwrapResponse)
        → FitsRequest c request.signed.payload
        → length request.digest ≡ 32
        → length nonce ≡ 32
        → Sealed request phone nonce response
        → decode_signed_response c x (encode_signed_response c x response) ≡ ok response
    unfolding blank_response encode_public
    decode-Sealed request phone nonce response fits digest_fits nonce_fits (sealed, l, same, k) =
        let fits' : FitsResponse response.payload = subst FitsResponse (sym same) (record {
          request_fits = fits.request_fits;
          digest_fits = digest_fits;
          identity_fits = fits.identity_fits;
          desktop_fits = fits.desktop_fits;
          session_fits = hx.compressed_length (x.public_key phone);
          nonce_fits = nonce_fits;
          sealed_fits = l;
        }) in
        let session : public_point x response.payload.phone_session_public_key
            ≡ ok (x.public_key phone) =
          subst
            (λ (v : UnwrapResponse).
              public_point x v.phone_session_public_key ≡ ok (x.public_key phone))
            (sym same) (public_point-encode_public x hx (x.public_key phone)) in
        decode_signed_response-encode_signed_response c hc x response (x.public_key phone) fits'
          session k

    -- The phone seals any 16-byte file key for the request of a session that has begun, and the session
    -- that receives the bytes of the response within the time of the request gives out this file key
    -- and is closed, if the desktop's replay store takes the response. The signers are those of the
    -- stub's keys, and the fields have the sizes of their types.
    pub begin-receive_response :
        (stub : PublicIdentityStub) (desktop : DesktopKeyState) (stanza : TaggedStanza)
        (caller_hint : Option Bytes) (now : ℕ) (secret : x.Scalar) (request_id nonce : Bytes)
        (key : x.Point) (s : DesktopUnwrapSession x)
        → IsSigner x key desktop.signer
        → begin c x stub desktop stanza caller_hint now secret request_id nonce ≡ ok s
        → FitsRequest c s.request.signed.payload
        → (phone : x.Scalar) (phone_key : x.Point) (signer : P256Signer)
          (file_key phone_nonce : Bytes) (later : ℕ)
        → IsSigner x phone_key signer
        → verifying x stub.phone_signing_public_key ≡ ok phone_key
        → length file_key ≡ 16
        → length phone_nonce ≡ 32
        → validate_request_time s.request.signed.payload.expires_at_unix later ≡ ok tt
        → (response : Signed UnwrapResponse) × (seal_response c x s.request file_key signer phone
              phone_nonce
            ≡ ok response)
          × ((replay after : S)
              → store.consume_response stub.desktop_id stub.identity_id
                  (hash x response_sig (encode_signed_response c x response))
                  s.request.signed.payload.expires_at_unix
                  later
                  replay
                ≡ (ok tt, after)
              → receive_response c x store (encode_signed_response c x response) later (s, replay)
                ≡ (ok file_key, (close x s, after)))
    begin-receive_response stub desktop stanza caller_hint now secret request_id nonce key s signs
          begun fits phone phone_key signer file_key phone_nonce later phone_signs trusted size
          nonce_size in_time =
        let (expires, (created, whole)) =
          begin_ok stub desktop stanza caller_hint now secret request_id nonce s begun in
        let payload = asked stub stanza caller_hint secret request_id nonce expires in
        let pairing = pairing_of stub in
        let (same, _, _, digest_fits) =
          create_request_ok hx payload desktop.signer key pairing now s.request signs created in
        let field : (f : UnwrapRequest → Bytes) → f s.request.signed.payload ≡ f payload =
          λ f. ap f same in
        let (response, made, opens) =
          seal_response-open_response c x hx store s.request pairing secret phone phone_key signer
            file_key phone_nonce later phone_signs trusted (field (λ q. q.session_public_key))
            (field (λ q. q.identity_id)) (field (λ q. q.desktop_id)) in_time size in
        let read = decode-Sealed s.request phone phone_nonce response fits digest_fits nonce_size (
          seal_response_ok s.request file_key signer phone_key phone phone_nonce response
            phone_signs made) in
        (
          response,
          made,
          λ replay after taken.
              let t : DesktopUnwrapSession x = record {
                request = s.request;
                desktop_session = secret;
                pairing = pairing;
                closed = false;
              } in
              subst
                (λ r.
                  receive_response c x store (encode_signed_response c x response) later (r, replay)
                  ≡ (ok file_key, (close x r, after)))
                (sym whole)
                (receive_lem t replay after later response file_key
                  (encode_signed_response c x response) refl read (opens replay ∙ simp taken)),
        )
