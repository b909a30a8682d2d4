-- ===== src/Protocol/Exchange/Acceptance.antt =====
-- A request that the desktop creates (`VerifiedRequest::create` of crates/core/src/protocol/mod.rs)
-- passes every check of the phone, and only the replay store decides.
use age_plugin_phone.Base.{
  ℕ, ◌≡◌, refl, sym, ap, ◌∙◌, true, bytes_eq, ok, ok_injective, ensure, ensure-ok, >>=-eq-ok,
}
use mathlib.Core.Path.{subst}
use age_plugin_phone.Base.Exec.{◌>>◌, lift}
use age_plugin_phone.Cbor.{Cbor}
use age_plugin_phone.Crypto.{Crypto}
use age_plugin_phone.Protocol.{Error, UnwrapRequest, Signed, PairingRecord, VerifiedRequest}
use age_plugin_phone.Protocol.Time.{validate_request_time}
use age_plugin_phone.Protocol.Signing.{
  P256Signer, request_sig, request_digest_domain, hash, sign, verify, verifying,
}
use age_plugin_phone.Protocol.Encode.{encode_request}
use age_plugin_phone.Protocol.Decode.{validate_request}
use age_plugin_phone.Protocol.Messages.{encode_signed_request, sign_request, create_request}
use age_plugin_phone.Protocol.Exchange.{verify_request_with_replay}
use age_plugin_phone.Protocol.Exchange.Delivery.{IsSigner, sign-verify}
use age_plugin_phone.Replay.{ReplayStore}

module _ (c : Cbor) (x : Crypto) where
  -- What the phone remembers and returns of an accepted request.
  abbrev verified : Signed UnwrapRequest → VerifiedRequest
  verified request = record {
    signed = request;
    digest = hash x request_digest_domain (encode_signed_request c x request);
  }

  accept_step :
      {S : Type 0} (store : ReplayStore S) (request : Signed UnwrapRequest)
      (pairing : PairingRecord) (now : ℕ) (key : x.Point) (s : S)
      → validate_request x request.payload ≡ ok tt
      → bytes_eq request.payload.desktop_id pairing.desktop_id ≡ true
      → bytes_eq request.payload.identity_id pairing.identity_id ≡ true
      → validate_request_time request.payload.expires_at_unix now ≡ ok tt
      → verifying x pairing.desktop_signing_public_key ≡ ok key
      → verify x key request_sig (encode_request c request.payload) request.signature ≡ ok tt
      → verify_request_with_replay c x store request pairing now s
        ≡ (store.consume_request pairing.desktop_id pairing.identity_id request.payload.request_id
                request.payload.nonce request.payload.expires_at_unix now
              >> lift (ok (verified request)))
            s
  unfolding verify_request_with_replay
  accept_step store request pairing now key s e1 e2 e3 e4 e5 e6 = rw (e1, e2, e3, e4, e5, e6)

  -- `sign_request` has checked the payload, and its signature verifies.
  pub sign_request_ok :
      (payload : UnwrapRequest) (signer : P256Signer) (key : x.Point)
      (signed : Signed UnwrapRequest)
      → IsSigner x key signer
      → sign_request c x payload signer ≡ ok signed
      → (validate_request x payload ≡ ok tt)
        × (signed.payload ≡ payload)
        × (verify x key request_sig (encode_request c payload) signed.signature ≡ ok tt)
  unfolding sign_request
  sign_request_ok payload signer key signed signs e =
      let (_, valid, e1) = >>=-eq-ok _ (validate_request x payload) e in
      let (signature, made, e2) =
        >>=-eq-ok _ (sign x signer request_sig (encode_request c payload)) e1 in
      let (bytes, made', _, checks) =
        sign-verify x key signer request_sig (encode_request c payload) signs in
      let result : Signed UnwrapRequest = record { payload = payload; signature = signature } in
      let same = ok_injective result signed (ok result) refl e2 in
      let same_bytes = ok_injective bytes signature _ made' made in
      (valid, ap (λ r. r.payload) (sym same), rw (← same, ← same_bytes) checks)

  -- The step for a request that was signed for this payload.
  accept_signed :
      {S : Type 0} (store : ReplayStore S) (payload : UnwrapRequest) (signed : Signed UnwrapRequest)
      (pairing : PairingRecord) (now : ℕ) (key : x.Point) (v : VerifiedRequest) (s : S)
      → signed.payload ≡ payload
      → verified signed ≡ v
      → validate_request x payload ≡ ok tt
      → bytes_eq payload.desktop_id pairing.desktop_id ≡ true
      → bytes_eq payload.identity_id pairing.identity_id ≡ true
      → validate_request_time payload.expires_at_unix now ≡ ok tt
      → verifying x pairing.desktop_signing_public_key ≡ ok key
      → verify x key request_sig (encode_request c payload) signed.signature ≡ ok tt
      → verify_request_with_replay c x store v.signed pairing now s
        ≡ (store.consume_request pairing.desktop_id pairing.identity_id payload.request_id
                payload.nonce payload.expires_at_unix now
              >> lift (ok v))
            s
  accept_signed store payload signed pairing now key v s same result e1 e2 e3 e4 e5 e6 =
      let p = signed.payload in
      let step =
        accept_step store signed pairing now key s (ap (λ q. validate_request x q) same ∙ e1)
          (ap (λ q. bytes_eq q.desktop_id pairing.desktop_id) same ∙ e2)
          (ap (λ q. bytes_eq q.identity_id pairing.identity_id) same ∙ e3)
          (ap (λ q. validate_request_time q.expires_at_unix now) same ∙ e4) e5
          (ap (λ q. verify x key request_sig (encode_request c q) signed.signature) same ∙ e6) in
      subst
        (λ (w : VerifiedRequest).
          verify_request_with_replay c x store w.signed pairing now s
          ≡ (store.consume_request pairing.desktop_id pairing.identity_id payload.request_id
                  payload.nonce payload.expires_at_unix now
                >> lift (ok w))
              s)
        result
        (step
          ∙ ap
              (λ (q : UnwrapRequest).
                (store.consume_request pairing.desktop_id pairing.identity_id q.request_id q.nonce
                      q.expires_at_unix now
                    >> lift (ok (verified signed)))
                  s)
              same)

  -- A request that the desktop creates for a pairing passes the checks of the phone at the same time:
  -- the phone accepts it exactly when its replay store takes the identifier and the nonce, and then
  -- returns what the desktop holds. The signer is that of the pairing's desktop.
  pub create_request-verify_request_with_replay :
      {S : Type 0} (store : ReplayStore S) (payload : UnwrapRequest) (signer : P256Signer)
      (pairing : PairingRecord) (now : ℕ) (key : x.Point) (v : VerifiedRequest) (s : S)
      → IsSigner x key signer
      → verifying x pairing.desktop_signing_public_key ≡ ok key
      → create_request c x payload signer pairing now ≡ ok v
      → verify_request_with_replay c x store v.signed pairing now s
        ≡ (store.consume_request pairing.desktop_id pairing.identity_id payload.request_id
                payload.nonce payload.expires_at_unix now
              >> lift (ok v))
            s
  unfolding create_request
  create_request-verify_request_with_replay store payload signer pairing now key v s signs trusted
        e =
      let (_, d, e1) =
        >>=-eq-ok _ (ensure (bytes_eq payload.desktop_id pairing.desktop_id) Error.wrong_desktop)
          e in
      let (_, i, e2) =
        >>=-eq-ok _ (ensure (bytes_eq payload.identity_id pairing.identity_id) Error.wrong_identity)
          e1 in
      let (own, _, e3) = >>=-eq-ok _ signer.public_key e2 in
      let (_, _, e4) =
        >>=-eq-ok _
          (ensure (bytes_eq own pairing.desktop_signing_public_key) Error.invalid_public_key) e3 in
      let (_, t, e5) = >>=-eq-ok _ (validate_request_time payload.expires_at_unix now) e4 in
      let (signed, made, e6) = >>=-eq-ok _ (sign_request c x payload signer) e5 in
      let (valid, same, checks) = sign_request_ok payload signer key signed signs made in
      let result = ok_injective (verified signed) v (ok (verified signed)) refl e6 in
      accept_signed store payload signed pairing now key v s same result valid (ensure-ok _ _ _ d)
        (ensure-ok _ _ _ i) t trusted checks
