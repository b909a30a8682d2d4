-- ===== src/Pairing/Session/Honest.antt =====
-- crates/desktop/src/pairing.rs: a pairing that both sides want, from `begin` to the stub.
use age_plugin_phone.Base.{
  ℕ, ◌+◌, ◌≤◌, ◌≡◌, refl, sym, ap, ◌∙◌, true, false, ◌||◌, arith, Bytes, bytes_eq, bytes_eq_refl,
  bytes_eq_sound, length, ok, ensure, ensure-ok, refuse, ok_injective, ok_step, ok_after,
}
use mathlib.Core.Path.{subst}
use age_plugin_phone.Cbor.{Cbor, IsCbor}
use age_plugin_phone.Crypto.{Crypto, IsCrypto}
use age_plugin_phone.Recipient.{parse_recipient, public_key_bytes}
use age_plugin_phone.Recipient.Stanza.{map_err, map_err-ok}
use age_plugin_phone.Protocol.{PairingOffer, PairingResponse, Signed, invalid_public_key}
use age_plugin_phone.Protocol.Signing.{
  P256Signer, label, public_point, verifying, verify, sign, encode_public, offer_sig, pairing_sig,
}
use age_plugin_phone.Protocol.Encode.{encode_offer, encode_pairing_response}
use age_plugin_phone.Protocol.Decode.{validate_pairing_response}
use age_plugin_phone.Protocol.RoundTrip.{FitsPairingResponse}
use age_plugin_phone.Protocol.Messages.{
  sign_offer, verify_offer, offer_digest, sign_pairing_response, shares_key,
  verify_pairing_response, encode_signed_pairing_response, decode_signed_pairing_response,
  pairing_fingerprint,
}
use age_plugin_phone.Protocol.Messages.Wire.{decode_signed_pairing_response-encode}
use age_plugin_phone.Protocol.Exchange.Delivery.{IsSigner, signed_ok}
use age_plugin_phone.Pairing.{max_pairing_session_age_ms, invalid_response, hex}
use age_plugin_phone.Pairing.Session.{
  waiting, confirming, DesktopPairingSession, close, begin, authenticate, stub_from_response,
}
use age_plugin_phone.Pairing.Session.Steps.{out_of_time, receive_response, confirm}

-- The signer holds the private key of `key`.
abbrev pub HoldsKey : (x : Crypto) → x.Point → P256Signer → Type 0
HoldsKey x key signer = (signer.public_key ≡ ok (encode_public x key)) × IsSigner x key signer

-- Both `receive_response` and `confirm` are called within the time of the session.
abbrev pub InTime : ℕ → ℕ → Type 0
InTime started now = (started ≤ now) × (now ≤ started + max_pairing_session_age_ms)

module _ (c : Cbor) (x : Crypto) where
  -- The phone's keys are none of the offer's.
  abbrev pub KeysApart : PairingOffer → PairingResponse → Type 0
  KeysApart offer p =
      (identity : x.Point) × (parse_recipient x p.recipient ≡ ok identity)
      × ((shares_key c x offer (public_key_bytes x identity)
            || shares_key c x offer p.phone_signing_public_key)
          ≡ false)

module _ (c : Cbor) (x : Crypto) (h : IsCrypto x) where
  verifying-encode_public : (key : x.Point) → verifying x (encode_public x key) ≡ ok key
  unfolding verifying encode_public
  verifying-encode_public key = rw (h.from_sec1_law key true) refl

  -- The key that a signer names is the one that it holds.
  own_key :
      (key : x.Point) (signer : P256Signer) (own : Bytes)
      → HoldsKey x key signer
      → signer.public_key ≡ ok own
      → verifying x own ≡ ok key
  own_key key signer own (e, _) f =
      subst (λ b. verifying x b ≡ ok key)
        (ok_injective (encode_public x key) own signer.public_key e f) (verifying-encode_public key)

  verify_offer_lem :
      (payload : PairingOffer) (signature : Bytes) (selection key : x.Point)
      → label payload.desktop_label ≡ ok tt
      → public_point x payload.desktop_selection_public_key ≡ ok selection
      → refuse
          (bytes_eq payload.desktop_selection_public_key payload.desktop_signing_public_key)
          invalid_public_key
        ≡ ok tt
      → verifying x payload.desktop_signing_public_key ≡ ok key
      → verify x key offer_sig (encode_offer c payload) signature ≡ ok tt
      → verify_offer c x (record { payload = payload; signature = signature }) ≡ ok tt
  unfolding verify_offer
  verify_offer_lem payload signature selection key e1 e2 e3 e4 e5 = rw (e1, e2, e3, e4, e5) refl

  sign_offer_ok :
      (payload : PairingOffer) (signer : P256Signer) (key : x.Point) (offer : Signed PairingOffer)
      → HoldsKey x key signer
      → sign_offer c x payload signer ≡ ok offer
      → verify_offer c x offer ≡ ok tt
  unfolding sign_offer
  sign_offer_ok payload signer key offer holds =
      let P : Type 0 = verify_offer c x offer ≡ ok tt in
      let selection = payload.desktop_selection_public_key in
      let signing = payload.desktop_signing_public_key in
      ok_step P (label payload.desktop_label) _ (λ _ e1. ok_step P signer.public_key _ (λ own e2.
        ok_step P (ensure (bytes_eq own signing) invalid_public_key) _ (λ u e3.
          ok_step P (public_point x selection) _ (λ point e4.
            ok_step P (refuse (bytes_eq selection signing) invalid_public_key) _ (λ _ e5.
              ok_step P (sign x signer offer_sig (encode_offer c payload)) _ (λ signature e6 e7.
                let result : Signed PairingOffer = record {
                  payload = payload;
                  signature = signature;
                } in
                let trusted =
                  subst (λ b. verifying x b ≡ ok key)
                    (bytes_eq_sound own signing (ensure-ok _ _ u e3))
                    (own_key key signer own holds e2) in
                let (checks, _) =
                  signed_ok x key signer offer_sig (encode_offer c payload) signature holds.1 e6 in
                subst (λ o. verify_offer c x o ≡ ok tt)
                  (ok_injective result offer (ok result) refl e7)
                  (verify_offer_lem payload signature point key e1 e4 e5 trusted checks)))))))

  -- What signing a response says of it.
  abbrev IsSigned : x.Point → Signed PairingResponse → Type 0
  IsSigned key response =
      (validate_pairing_response x response.payload ≡ ok tt)
      × (verifying x response.payload.phone_signing_public_key ≡ ok key)
      × (verify x key pairing_sig (encode_pairing_response c response.payload) response.signature
          ≡ ok tt)
      × (length response.signature ≡ 64)

  sign_pairing_response_ok :
      (payload : PairingResponse) (signer : P256Signer) (key : x.Point)
      (response : Signed PairingResponse)
      → HoldsKey x key signer
      → sign_pairing_response c x payload signer ≡ ok response
      → IsSigned key response × (response.payload ≡ payload)
  unfolding sign_pairing_response
  sign_pairing_response_ok payload signer key response holds =
      let P : Type 0 = IsSigned key response × (response.payload ≡ payload) in
      let signing = payload.phone_signing_public_key in
      ok_step P (validate_pairing_response x payload) _ (λ _ e1.
        ok_step P signer.public_key _ (λ own e2.
          ok_step P (ensure (bytes_eq own signing) invalid_public_key) _ (λ u e3.
            ok_step P (sign x signer pairing_sig (encode_pairing_response c payload)) _
              (λ signature e4 e5.
                let result : Signed PairingResponse = record {
                  payload = payload;
                  signature = signature;
                } in
                let trusted =
                  subst (λ b. verifying x b ≡ ok key)
                    (bytes_eq_sound own signing (ensure-ok _ _ u e3))
                    (own_key key signer own holds e2) in
                let (checks, l) =
                  signed_ok x key signer pairing_sig (encode_pairing_response c payload) signature
                    holds.1 e4 in
                subst (λ r. IsSigned key r × (r.payload ≡ payload))
                  (ok_injective result response (ok result) refl e5)
                  ((e1, trusted, checks, l), refl)))))

  verify_pairing_response_lem :
      (offer : Signed PairingOffer) (response : Signed PairingResponse) (key : x.Point)
      → verify_offer c x offer ≡ ok tt
      → IsSigned key response
      → bytes_eq response.payload.offer_digest (offer_digest c x offer) ≡ true
      → KeysApart c x offer.payload response.payload
      → verify_pairing_response c x response offer ≡ ok tt
  unfolding verify_pairing_response
  verify_pairing_response_lem offer response key e1 (e2, e3, e4, _) e5 (identity, e6, e7) =
      rw (e1, e2, e5, e6, e7, e3, e4) refl

  begin_ok :
      (desktop_id text : Bytes) (signer : P256Signer) (selection : Bytes) (now : ℕ) (nonce : Bytes)
      (key : x.Point) (s : DesktopPairingSession)
      → HoldsKey x key signer
      → begin c x desktop_id text signer selection now nonce ≡ ok s
      → (verify_offer c x s.offer ≡ ok tt) × (s.started_at_ms ≡ now) × (s.state ≡ waiting)
  unfolding begin
  begin_ok desktop_id text signer selection now nonce key s holds =
      let Q : DesktopPairingSession → Type 0 =
        λ t. (verify_offer c x t.offer ≡ ok tt) × (t.started_at_ms ≡ now) × (t.state ≡ waiting) in
      ok_after (Q s) (map_err signer.public_key invalid_response) _ (λ own.
        let payload : PairingOffer = record {
          desktop_id = desktop_id;
          desktop_label = text;
          desktop_signing_public_key = own;
          desktop_selection_public_key = selection;
          nonce = nonce;
        } in
        ok_step (Q s) (map_err (sign_offer c x payload signer) invalid_response) _ (λ offer e f.
          let begun : DesktopPairingSession = record {
            offer = offer;
            started_at_ms = now;
            state = waiting;
          } in
          let signed = map_err-ok (sign_offer c x payload signer) invalid_response offer e in
          subst Q (ok_injective begun s (ok begun) refl f)
            (sign_offer_ok payload signer key offer holds signed, refl, refl)))

  in_time_lem : (started now : ℕ) → InTime started now → out_of_time started now ≡ false
  unfolding out_of_time
  in_time_lem started now (e, f) = ground arith

  authenticate_lem :
      (offer : Signed PairingOffer) (response : Signed PairingResponse)
      → decode_signed_pairing_response c x (encode_signed_pairing_response c x response)
        ≡ ok response
      → verify_pairing_response c x response offer ≡ ok tt
      → authenticate c x offer (encode_signed_pairing_response c x response) ≡ ok response
  unfolding authenticate
  authenticate_lem offer response e f = rw (e, f) refl

  -- The session once the response is on display.
  abbrev shown : DesktopPairingSession → Signed PairingResponse → DesktopPairingSession
  shown s response = record s {
    state = confirming response (pairing_fingerprint c x s.offer response);
  }

  shown_lem :
      (s : DesktopPairingSession) (response : Signed PairingResponse) (encoded : Bytes) (now : ℕ)
      → s.state ≡ waiting
      → out_of_time s.started_at_ms now ≡ false
      → authenticate c x s.offer encoded ≡ ok response
      → receive_response c x encoded now s ≡ (
        ok (record {
          desktop_label = s.offer.payload.desktop_label;
          transcript_fingerprint = hex (pairing_fingerprint c x s.offer response);
        }),
        shown s response,
      )
  unfolding receive_response
  shown_lem s response encoded now e1 e2 e3 = rw (e1, e2, e3) refl

  confirm_lem :
      (s : DesktopPairingSession) (response : Signed PairingResponse) (now : ℕ)
      → out_of_time s.started_at_ms now ≡ false
      → let fingerprint = pairing_fingerprint c x s.offer response in
        confirm c x (hex fingerprint) now (shown s response)
        ≡ (ok (stub_from_response c x s.offer response fingerprint), close s)
  unfolding confirm
  confirm_lem s response now e =
      rw (e, bytes_eq_refl (hex (pairing_fingerprint c x s.offer response))) refl

  -- A response that the phone signs for the offer of a session that has begun, with keys that are
  -- none of the desktop's, is accepted within the session's time and the fingerprint of both is
  -- displayed; when that is confirmed within the time, the session gives out the stub of the
  -- response and is closed. Both signers hold the keys that they name.
  pub begin-receive_response-confirm :
      IsCbor c
      → (desktop_id text : Bytes) (desktop : P256Signer) (selection : Bytes) (now : ℕ)
        (nonce : Bytes) (desktop_key : x.Point) (s : DesktopPairingSession)
      → HoldsKey x desktop_key desktop
      → begin c x desktop_id text desktop selection now nonce ≡ ok s
      → (payload : PairingResponse) (phone : P256Signer) (phone_key : x.Point)
        (response : Signed PairingResponse)
      → HoldsKey x phone_key phone
      → FitsPairingResponse c payload
      → payload.offer_digest ≡ offer_digest c x s.offer
      → KeysApart c x s.offer.payload payload
      → sign_pairing_response c x payload phone ≡ ok response
      → (received confirmed : ℕ) → InTime now received
      → InTime now confirmed
      → let fingerprint = pairing_fingerprint c x s.offer response in
        let shown = receive_response c x (encode_signed_pairing_response c x response) received s in
        (shown.0
          ≡ ok (record {
            desktop_label = s.offer.payload.desktop_label;
            transcript_fingerprint = hex fingerprint;
          }))
        × (confirm c x (hex fingerprint) confirmed shown.1
            ≡ (ok (stub_from_response c x s.offer response fingerprint), close s))
  begin-receive_response-confirm hc desktop_id text desktop selection now nonce desktop_key s holds
        begun payload phone phone_key response phone_holds fits digest apart signed received
        confirmed early early' =
      let (offered, started, fresh) =
        begin_ok desktop_id text desktop selection now nonce desktop_key s holds begun in
      let (checked, same) =
        sign_pairing_response_ok payload phone phone_key response phone_holds signed in
      let p = response.payload in
      let bound : bytes_eq p.offer_digest (offer_digest c x s.offer) ≡ true =
        ap (λ (q : PairingResponse). bytes_eq q.offer_digest (offer_digest c x s.offer)) same
        ∙ (ap (λ d. bytes_eq d (offer_digest c x s.offer)) digest
            ∙ bytes_eq_refl (offer_digest c x s.offer)) in
      let verified =
        verify_pairing_response_lem s.offer response phone_key offered checked bound
          (subst (KeysApart c x s.offer.payload) (sym same) apart) in
      let fits' : FitsPairingResponse c p = subst (FitsPairingResponse c) (sym same) fits in
      let (valid, _, _, l) = checked in
      let read = decode_signed_pairing_response-encode c hc x response fits' valid l in
      let in_time : (t : ℕ) → InTime now t → out_of_time s.started_at_ms t ≡ false =
        λ t e. ap (λ (n : ℕ). out_of_time n t) started ∙ in_time_lem now t e in
      let step =
        shown_lem s response (encode_signed_pairing_response c x response) received fresh
          (in_time received early) (authenticate_lem s.offer response read verified) in
      (
        ap (λ o. o.0) step,
        ap (λ o. confirm c x (hex (pairing_fingerprint c x s.offer response)) confirmed o.1) step
            ∙ confirm_lem s response confirmed (in_time confirmed early'),
      )
