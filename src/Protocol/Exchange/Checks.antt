-- ===== src/Protocol/Exchange/Checks.antt =====
-- What an accepted request and an opened response have passed, and what a refused one leaves behind:
-- `verify_request_with_replay` and `open_response` of crates/core/src/protocol/mod.rs over any store.
use age_plugin_phone.Base.{
  ℕ, ◌≡◌, refl, ◌⊎◌, inl, inr, true, some, Bytes, bytes_eq, bytes_eq_sound, ensure-ok, ok_or-ok,
  length, ◌==◌, ==_iff, Result, ok, err, ensure, ok_or, &&-parts,
}
use age_plugin_phone.Base.Exec.{Exec, ◌>>=◌, ◌>>◌, lift}
use age_plugin_phone.Cbor.{Cbor}
use age_plugin_phone.Crypto.{Crypto}
use age_plugin_phone.Recipient.{zero_nonce}
use age_plugin_phone.Protocol.{
  Error, UnwrapRequest, UnwrapResponse, Signed, PairingRecord, VerifiedRequest,
}
use age_plugin_phone.Protocol.Time.{validate_request_time}
use age_plugin_phone.Protocol.Signing.{
  request_sig, response_sig, request_digest_domain, hash, verify, session_key, verifying,
  public_point,
}
use age_plugin_phone.Protocol.Encode.{encode_request, encode_response, response_aad}
use age_plugin_phone.Protocol.Decode.{validate_request}
use age_plugin_phone.Protocol.Messages.{encode_signed_request, encode_signed_response}
use age_plugin_phone.Protocol.Exchange.{verify_request_with_replay, is_bound, open_response}
use age_plugin_phone.Replay.{ReplayStore}

-- The run of `m` from `s` stops with an error and the store as it was, or it has passed the checks
-- `Q` and is the run of `final`.
abbrev pub Guarded : {S E A : Type 0} → Exec S E A → S → Type 0 → Exec S E A → Type 0
Guarded {E} m s Q final = ((e : E) × (m s ≡ (err e, s))) ⊎ (Q × (m s ≡ final s))

-- A step that reads no store either ends the run with the store as it is, or goes on.
module _ {S E B : Type 0} (P : Result E B × S → Type 0) (s : S)
    (stops : (e : E) → P (err e, s)) where
  guarded :
      {A : Type 0} (r : Result E A) (f : A → Exec S E B)
      → ((a : A) → r ≡ ok a → P (f a s))
      → P ((lift r >>= f) s)
  guarded (ok a) f k = k a refl
  guarded (err e) f k = stops e

module _ (c : Cbor) (x : Crypto) {S : Type 0} (store : ReplayStore S) where
  -- The checks of `verify_request_with_replay` before the consumption.
  pub record RequestPasses (request : Signed UnwrapRequest) (pairing : PairingRecord) (now : ℕ)
      : Type 0 where
    pub valid : validate_request x request.payload ≡ ok tt
    pub of_desktop : request.payload.desktop_id ≡ pairing.desktop_id
    pub of_identity : request.payload.identity_id ≡ pairing.identity_id
    pub in_time : validate_request_time request.payload.expires_at_unix now ≡ ok tt
    pub key : x.Point
    pub key_of_pairing : verifying x pairing.desktop_signing_public_key ≡ ok key
    pub signed :
        verify x key request_sig (encode_request c request.payload) request.signature ≡ ok tt

  -- A request is refused with the store untouched, or it names this pairing, is in time, is signed
  -- by the key of the pairing's desktop, and the outcome is that of consuming its identifier and
  -- nonce; what is returned then carries the digest of the signed request.
  pub verify_request_with_replay-checks :
      (request : Signed UnwrapRequest) (pairing : PairingRecord) (now : ℕ) (s : S)
      → Guarded
          (verify_request_with_replay c x store request pairing now)
          s
          (RequestPasses request pairing now)
          (store.consume_request pairing.desktop_id pairing.identity_id request.payload.request_id
              request.payload.nonce request.payload.expires_at_unix now
            >> lift (
                ok (record {
                  signed = request;
                  digest = hash x request_digest_domain (encode_signed_request c x request);
                })))
  unfolding verify_request_with_replay
  verify_request_with_replay-checks request pairing now s =
      let p = request.payload in
      let final =
        store.consume_request pairing.desktop_id pairing.identity_id p.request_id p.nonce
          p.expires_at_unix now
        >> lift (
            ok (record {
              signed = request;
              digest = hash x request_digest_domain (encode_signed_request c x request);
            })) in
      let P : Result Error VerifiedRequest × S → Type 0 = λ out.
        ((e : Error) × (out ≡ (err e, s)))
        ⊎ (RequestPasses request pairing now × (out ≡ final s)) in
      let stops : (e : Error) → P (err e, s) = λ e. inl (e, refl) in
      guarded P s stops (validate_request x p) _ (λ _ e1.
        guarded P s stops (ensure (bytes_eq p.desktop_id pairing.desktop_id) Error.wrong_desktop) _
          (λ _ e2.
            guarded P s stops
              (ensure (bytes_eq p.identity_id pairing.identity_id) Error.wrong_identity) _
              (λ _ e3. guarded P s stops (validate_request_time p.expires_at_unix now) _ (λ _ e4.
                guarded P s stops (verifying x pairing.desktop_signing_public_key) _ (λ key e5.
                  guarded P s stops
                    (verify x key request_sig (encode_request c p) request.signature) _
                    (λ _ e6. inr (
                      record {
                        valid = e1;
                        of_desktop =
                            bytes_eq_sound p.desktop_id pairing.desktop_id (ensure-ok _ _ _ e2);
                        of_identity =
                            bytes_eq_sound p.identity_id pairing.identity_id (ensure-ok _ _ _ e3);
                        in_time = e4;
                        key = key;
                        key_of_pairing = e5;
                        signed = e6;
                      },
                      refl,
                    )))))))

  -- The checks of `open_response` before the consumption.
  pub record ResponsePasses (response : Signed UnwrapResponse) (request : VerifiedRequest)
      (pairing : PairingRecord) (desktop_session : x.Scalar) (now : ℕ) (plaintext : Bytes)
      : Type 0 where
    pub in_time : validate_request_time request.signed.payload.expires_at_unix now ≡ ok tt
    pub of_request : response.payload.request_id ≡ request.signed.payload.request_id
    pub of_digest : response.payload.request_digest ≡ request.digest
    pub of_identity : response.payload.identity_id ≡ pairing.identity_id
    pub of_desktop : response.payload.desktop_id ≡ pairing.desktop_id
    pub phone_key : x.Point
    pub key_of_pairing : verifying x pairing.phone_signing_public_key ≡ ok phone_key
    pub signed :
        verify x phone_key response_sig (encode_response c response.payload) response.signature
        ≡ ok tt
    pub session : x.Point
    pub session_of_phone : public_point x response.payload.phone_session_public_key ≡ ok session
    pub key : Bytes
    pub key_derived :
        session_key x
          (x.diffie_hellman desktop_session session)
          response.payload.request_digest
          response.payload.nonce
        ≡ ok key
    pub cipher : x.Cipher
    pub cipher_of_key : x.cipher_from_slice key ≡ some cipher
    pub opens :
        x.decrypt cipher zero_nonce response.payload.encrypted_file_key
          (response_aad c response.payload)
        ≡ some plaintext
    pub plaintext_length : length plaintext ≡ 16

  is_bound-parts :
      (p : UnwrapResponse) (request : VerifiedRequest) (pairing : PairingRecord)
      → is_bound c x store p request pairing ≡ true
      → (p.request_id ≡ request.signed.payload.request_id)
        × (p.request_digest ≡ request.digest)
        × (p.identity_id ≡ pairing.identity_id)
        × (p.desktop_id ≡ pairing.desktop_id)
  unfolding is_bound
  is_bound-parts p request pairing e =
      let (e1, r1) = &&-parts _ _ e in
      let (e2, r2) = &&-parts _ _ r1 in
      let (e3, e4) = &&-parts _ _ r2 in
      (bytes_eq_sound _ _ e1, bytes_eq_sound _ _ e2, bytes_eq_sound _ _ e3, bytes_eq_sound _ _ e4)

  -- A response is refused with the store untouched, or it is bound to this request and pairing, is in
  -- time, is signed by the key of the pairing's phone and decrypts under the session key to 16 bytes,
  -- and the outcome is that of consuming its digest, with these bytes as the result.
  pub open_response-checks :
      (response : Signed UnwrapResponse) (request : VerifiedRequest) (pairing : PairingRecord)
      (desktop_session : x.Scalar) (now : ℕ) (s : S)
      → ((e : Error) × (open_response c x store response request pairing desktop_session now s
            ≡ (err e, s)))
        ⊎ ((plaintext : Bytes) × ResponsePasses response request pairing desktop_session now
              plaintext
            × (open_response c x store response request pairing desktop_session now s
                ≡ (store.consume_response pairing.desktop_id pairing.identity_id
                        (hash x response_sig (encode_signed_response c x response))
                        request.signed.payload.expires_at_unix
                        now
                      >> lift (ok plaintext))
                    s))
  unfolding open_response
  open_response-checks response request pairing desktop_session now s =
      let p = response.payload in
      let consume =
        store.consume_response pairing.desktop_id pairing.identity_id
          (hash x response_sig (encode_signed_response c x response))
          request.signed.payload.expires_at_unix now in
      let P : Result Error Bytes × S → Type 0 = λ out.
        ((e : Error) × (out ≡ (err e, s)))
        ⊎ ((plaintext : Bytes) × ResponsePasses response request pairing desktop_session now
              plaintext
            × (out ≡ (consume >> lift (ok plaintext)) s)) in
      let stops : (e : Error) → P (err e, s) = λ e. inl (e, refl) in
      guarded P s stops (validate_request_time request.signed.payload.expires_at_unix now) _
        (λ _ e1.
          guarded P s stops (ensure (is_bound c x store p request pairing) Error.binding_mismatch) _
            (λ _ e2.
              guarded P s stops (verifying x pairing.phone_signing_public_key) _ (λ phone_key e3.
                guarded P s stops
                  (verify x phone_key response_sig (encode_response c p) response.signature) _
                  (λ _ e4.
                    guarded P s stops (public_point x p.phone_session_public_key) _ (λ session e5.
                      guarded P s stops
                        (session_key x (x.diffie_hellman desktop_session session) p.request_digest
                          p.nonce)
                        _
                        (λ key e6.
                          guarded P s stops (ok_or (x.cipher_from_slice key) Error.key_derivation) _
                            (λ cipher e7.
                              guarded P s stops
                                (ok_or
                                  (x.decrypt cipher zero_nonce p.encrypted_file_key
                                    (response_aad c p))
                                  Error.decryption)
                                _
                                (λ plaintext e8.
                                  guarded P s stops
                                    (ensure (length plaintext == 16) Error.decryption) _
                                    (λ _ e9.
                                      let (b1, b2, b3, b4) =
                                        is_bound-parts p request pairing (ensure-ok _ _ _ e2) in
                                      inr (
                                        plaintext,
                                        record {
                                          in_time = e1;
                                          of_request = b1;
                                          of_digest = b2;
                                          of_identity = b3;
                                          of_desktop = b4;
                                          phone_key = phone_key;
                                          key_of_pairing = e3;
                                          signed = e4;
                                          session = session;
                                          session_of_phone = e5;
                                          key = key;
                                          key_derived = e6;
                                          cipher = cipher;
                                          cipher_of_key = ok_or-ok _ _ _ e7;
                                          opens = ok_or-ok _ _ _ e8;
                                          plaintext_length =
                                              (==_iff (length plaintext) 16).0 (ensure-ok _ _ _ e9);
                                        },
                                        refl,
                                      ))))))))))
