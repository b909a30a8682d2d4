-- ===== src/Pairing/Session/Complete.antt =====
-- A stub that a pairing session of crates/desktop/src/pairing.rs confirms can be stored and read back:
-- what `verify` has checked is what `PublicIdentityStub::decode` wants.
use age_plugin_phone.Base.{
  ◌≡◌, sym, ap, Bool, true, false, not, ◌&&◌, ◌||◌, arith, Bytes, bytes_eq, ok, ok_or, ok_or-ok,
  ok_injective, ensure, refuse, refuse-ok, ok_step, ok_after,
}
use mathlib.Core.Path.{subst}
use age_plugin_phone.Cbor.{Cbor, IsCbor}
use age_plugin_phone.Crypto.{Crypto}
use age_plugin_phone.Recipient.{parse_recipient, public_key_bytes, has_compressed_tag}
use age_plugin_phone.Recipient.Stanza.{map_err, map_err-ok}
use age_plugin_phone.Protocol.{
  PairingOffer, PairingResponse, Signed, invalid_public_key, binding_mismatch,
  invalid_recipient_stanza,
}
use age_plugin_phone.Protocol.Signing.{label, verifying, public_point}
use age_plugin_phone.Protocol.Decode.{validate_pairing_response}
use age_plugin_phone.Protocol.Messages.{
  verify_offer, shares_key, verify_pairing_response, offer_digest, pairing_fingerprint,
}
use age_plugin_phone.Pairing.{PublicIdentityStub}
use age_plugin_phone.Pairing.Stub.{parses, keys_are_separate, encode_stub, decode_stub}
use age_plugin_phone.Pairing.Stub.RoundTrip.{FitsStub, decode_stub-encode_stub}
use age_plugin_phone.Pairing.Session.{stub_from_response}
use age_plugin_phone.Pairing.Session.Once.{IsPaired}

-- The nine tests of `keys_are_separate`.
separate_lem :
    (o1 o2 o3 r2 r3 a b d e : Bool)
    → o1 ≡ true
    → o2 ≡ true
    → o3 ≡ false
    → r2 ≡ true
    → r3 ≡ false
    → ((a || b) || (d || e)) ≡ false
    → (o1 && (o2 && (not o3 && (r2 && (not a && (not b && (not r3 && (not d && not e)))))))) ≡ true
separate_lem o1 o2 o3 r2 r3 a b d e = ground arith

module _ (c : Cbor) (x : Crypto) where
  verifying-parses :
      (bytes : Bytes) (key : x.Point)
      → verifying x bytes ≡ ok key
      → parses (x.from_sec1_bytes bytes) ≡ true
  unfolding verifying
  verifying-parses bytes key e =
      ap parses (ok_or-ok (x.from_sec1_bytes bytes) invalid_public_key key e)

  public_point-parses :
      (bytes : Bytes) (key : x.Point)
      → public_point x bytes ≡ ok key
      → parses (x.from_sec1_bytes bytes) ≡ true
  unfolding public_point
  public_point-parses bytes key =
      let P : Type 0 = parses (x.from_sec1_bytes bytes) ≡ true in
      ok_after P (ensure (has_compressed_tag bytes) invalid_public_key) _ (λ _.
        ok_step P (ok_or (x.from_sec1_bytes bytes) invalid_public_key) _
          (λ k e _. ap parses (ok_or-ok (x.from_sec1_bytes bytes) invalid_public_key k e)))

  -- What the verification of an offer says of its keys.
  abbrev OfferKeys : PairingOffer → Type 0
  OfferKeys p =
      (parses (x.from_sec1_bytes p.desktop_signing_public_key) ≡ true)
      × (parses (x.from_sec1_bytes p.desktop_selection_public_key) ≡ true)
      × (bytes_eq p.desktop_selection_public_key p.desktop_signing_public_key ≡ false)

  verify_offer_keys :
      (offer : Signed PairingOffer) → verify_offer c x offer ≡ ok tt → OfferKeys offer.payload
  unfolding verify_offer
  verify_offer_keys offer =
      let p = offer.payload in
      let P : Type 0 = OfferKeys p in
      ok_after P (label p.desktop_label) _ (λ _.
        ok_step P (public_point x p.desktop_selection_public_key) _ (λ k e1.
          ok_step P
            (refuse (bytes_eq p.desktop_selection_public_key p.desktop_signing_public_key)
              invalid_public_key)
            _
            (λ u e2. ok_step P (verifying x p.desktop_signing_public_key) _ (λ g e3 _. (
              verifying-parses p.desktop_signing_public_key g e3,
              public_point-parses p.desktop_selection_public_key k e1,
              refuse-ok _ _ u e2,
            )))))

  abbrev ResponseKeys : PairingResponse → Type 0
  ResponseKeys p =
      (key : x.Point) × (parse_recipient x p.recipient ≡ ok key)
      × (parses (x.from_sec1_bytes p.phone_signing_public_key) ≡ true)
      × (bytes_eq (public_key_bytes x key) p.phone_signing_public_key ≡ false)

  validate_pairing_response_keys :
      (p : PairingResponse) → validate_pairing_response x p ≡ ok tt → ResponseKeys p
  unfolding validate_pairing_response
  validate_pairing_response_keys p =
      let P : Type 0 = ResponseKeys p in
      ok_step P (map_err (parse_recipient x p.recipient) invalid_recipient_stanza) _ (λ key e1.
        ok_step P (verifying x p.phone_signing_public_key) _ (λ k e2 e3. (
          key,
          map_err-ok (parse_recipient x p.recipient) invalid_recipient_stanza key e1,
          verifying-parses p.phone_signing_public_key k e2,
          refuse-ok _ _ tt e3,
        )))

  -- The stub of a verified response has separate keys.
  abbrev StubKeys : Signed PairingOffer → Signed PairingResponse → Type 0
  StubKeys offer response =
      let stub = stub_from_response c x offer response (pairing_fingerprint c x offer response) in
      (key : x.Point) × (parse_recipient x response.payload.recipient ≡ ok key)
      × (keys_are_separate c x (public_key_bytes x key) stub ≡ true)

  separate :
      (offer : Signed PairingOffer) (response : Signed PairingResponse)
      → OfferKeys offer.payload
      → ResponseKeys response.payload
      → (identity : x.Point) → parse_recipient x response.payload.recipient ≡ ok identity
      → (shares_key c x offer.payload (public_key_bytes x identity)
          || shares_key c x offer.payload response.payload.phone_signing_public_key)
        ≡ false
      → StubKeys offer response
  unfolding keys_are_separate stub_from_response shares_key
  separate offer response (o1, o2, o3) (key, r1, r2, r3) identity e shared =
      let Shared : x.Point → Type 0 = λ k.
        (shares_key c x offer.payload (public_key_bytes x k)
          || shares_key c x offer.payload response.payload.phone_signing_public_key)
        ≡ false in
      let same = ok_injective identity key (parse_recipient x response.payload.recipient) e r1 in
      let apart = subst Shared same shared in
      (key, r1, separate_lem _ _ _ _ _ _ _ _ _ o1 o2 o3 r2 r3 apart)

  verified_StubKeys :
      (offer : Signed PairingOffer) (response : Signed PairingResponse)
      → verify_pairing_response c x response offer ≡ ok tt
      → StubKeys offer response
  unfolding verify_pairing_response
  verified_StubKeys offer response =
      let P : Type 0 = StubKeys offer response in
      let p = response.payload in
      ok_step P (verify_offer c x offer) _ (λ _ e1.
        ok_step P (validate_pairing_response x p) _ (λ _ e2.
          ok_after P (ensure (bytes_eq p.offer_digest (offer_digest c x offer)) binding_mismatch) _
            (λ _.
              ok_step P (map_err (parse_recipient x p.recipient) invalid_recipient_stanza) _
                (λ identity e3.
                  ok_step P
                    (refuse
                      (shares_key c x offer.payload (public_key_bytes x identity)
                        || shares_key c x offer.payload p.phone_signing_public_key)
                      invalid_public_key)
                    _
                    (λ u e4 _.
                      separate offer response (verify_offer_keys offer e1)
                        (validate_pairing_response_keys p e2) identity
                        (map_err-ok (parse_recipient x p.recipient) invalid_recipient_stanza
                          identity e3)
                        (refuse-ok _ _ u e4))))))

  -- The stub of a response that was verified for an offer, with fields of the sizes of their types, is
  -- read back from its bytes: `decode` has no check that a confirmed stub fails.
  pub paired_decode_stub-encode_stub :
      IsCbor c
      → (offer : Signed PairingOffer) (stub : PublicIdentityStub) → IsPaired c x offer stub
      → FitsStub c stub
      → decode_stub c x (encode_stub c stub) ≡ ok stub
  unfolding stub_from_response
  paired_decode_stub-encode_stub h offer stub (response, verified, same) fits =
      let (key, parsed, separate) = verified_StubKeys offer response verified in
      let made = stub_from_response c x offer response (pairing_fingerprint c x offer response) in
      subst (λ v. decode_stub c x (encode_stub c v) ≡ ok v) (sym same)
        (decode_stub-encode_stub c h x made key (subst (FitsStub c) same fits) parsed separate)
