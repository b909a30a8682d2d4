-- ===== src/Protocol/Messages/Wire.antt =====
-- The signed messages of crates/core/src/protocol/mod.rs on the wire: `encode` and `decode`.
use age_plugin_phone.Base.{
  ◌≤◌, ◌≡◌, ◌||◌, false, [], ◌++◌, arith, Bytes, bytes_eq, bytes_eq_sound, length, length-append,
  ltb, ◌==◌, ok, Bool-cases, inl, inr, >>=-eq-ok,
}
use age_plugin_phone.Cbor.{Cbor, IsCbor}
use age_plugin_phone.Crypto.{Crypto}
use age_plugin_phone.Protocol.{PairingOffer, PairingResponse, UnwrapRequest, UnwrapResponse, Signed}
use age_plugin_phone.Protocol.Signing.{public_point}
use age_plugin_phone.Protocol.Encode.{
  encode_signed, encode_offer, encode_pairing_response, encode_request, encode_response,
}
use age_plugin_phone.Protocol.Decode.{
  canonical, at_end, decode_signed, decode_request, decode_response, validate_request,
  validate_pairing_response,
}
use age_plugin_phone.Protocol.Reading.{canonical_lem, arr_lem, fixed_bytes_lem}
use age_plugin_phone.Protocol.RoundTrip.{
  FitsOffer, FitsPairingResponse, FitsRequest, FitsResponse, decode_offer-encode_offer,
  decode_pairing_response-encode, decode_request-encode_request, decode_response-encode_response,
}
use age_plugin_phone.Protocol.Sizes.{
  bytes_le, offer_le, pairing_response_le, request_le, response_le,
}
use age_plugin_phone.Protocol.Messages.{
  encode_signed_offer, decode_signed_offer, encode_signed_pairing_response,
  decode_signed_pairing_response, encode_signed_request, decode_signed_request,
  encode_signed_response, decode_signed_response,
}

canonical_sound : (a b : Bytes) (u : Unit {0}) → canonical a b ≡ ok u → a ≡ b
unfolding canonical
canonical_sound a b u h = elim (Bool-cases (bytes_eq a b)) [
  | inl y ↦ bytes_eq_sound a b y
  | inr n ↦ ground arith
]

module _ (c : Cbor) (h : IsCbor c) where
  signed_length :
      (payload signature : Bytes)
      → length payload ≤ 65000
      → length signature ≡ 64
      → (length (encode_signed c payload signature) == 0
          || ltb 65536 (length (encode_signed c payload signature)))
        ≡ false
  unfolding encode_signed
  signed_length payload signature l s =
      let r2 = c.put_bytes signature ++ [] in
      let r1 = c.put_bytes payload ++ r2 in
      let total = length-append (c.put_array 2) r1 in
      let first : length (c.put_array 2) ≡ 1 = h.array_size 2 in
      let upper = bytes_le c h payload r2 in let rest = bytes_le c h signature [] in ground arith

  decode_signed-encode_signed :
      (payload signature : Bytes)
      → length payload ≤ 65000
      → length signature ≡ 64
      → decode_signed c (encode_signed c payload signature) ≡ ok (payload, signature)
  unfolding decode_signed encode_signed at_end
  decode_signed-encode_signed payload signature l s =
      let r2 = c.put_bytes signature ++ [] in
      let r1 = c.put_bytes payload ++ r2 in
      let small = signed_length payload signature l s in
      rw (
        small,
        arr_lem c h 2 r1 (omega arith),
        h.bytes_law payload r2 (omega arith),
        fixed_bytes_lem c h 64 signature [] s (omega arith),
      )

  module _ (x : Crypto) where
    -- A signed offer whose fields have the sizes of their types and whose label fits is read back from
    -- its encoding.
    pub decode_signed_offer-encode_signed_offer :
        (v : Signed PairingOffer)
        → FitsOffer c v.payload
        → length v.signature ≡ 64
        → decode_signed_offer c x (encode_signed_offer c x v) ≡ ok v
    unfolding decode_signed_offer encode_signed_offer
    decode_signed_offer-encode_signed_offer v f s = rw (
      decode_signed-encode_signed (encode_offer c v.payload) v.signature (offer_le c h v.payload f)
          s,
      decode_offer-encode_offer c h v.payload f,
      canonical_lem (encode_signed c (encode_offer c v.payload) v.signature),
    )

    -- A signed pairing response whose fields have the sizes of their types and pass its checks is read
    -- back from its encoding.
    pub decode_signed_pairing_response-encode :
        (v : Signed PairingResponse)
        → FitsPairingResponse c v.payload
        → validate_pairing_response x v.payload ≡ ok tt
        → length v.signature ≡ 64
        → decode_signed_pairing_response c x (encode_signed_pairing_response c x v) ≡ ok v
    unfolding decode_signed_pairing_response encode_signed_pairing_response
    decode_signed_pairing_response-encode v f valid s = rw (
      decode_signed-encode_signed (encode_pairing_response c v.payload) v.signature
          (pairing_response_le c h v.payload f) s,
      decode_pairing_response-encode c h x v.payload f valid,
      canonical_lem (encode_signed c (encode_pairing_response c v.payload) v.signature),
    )

    -- A signed request whose fields have the sizes of their types and pass `validate_request` is
    -- read back from its encoding.
    pub decode_signed_request-encode_signed_request :
        (v : Signed UnwrapRequest)
        → FitsRequest c v.payload
        → validate_request x v.payload ≡ ok tt
        → length v.signature ≡ 64
        → decode_signed_request c x (encode_signed_request c x v) ≡ ok v
    unfolding decode_signed_request encode_signed_request
    decode_signed_request-encode_signed_request v f valid s = rw (
      decode_signed-encode_signed (encode_request c v.payload) v.signature
          (request_le c h v.payload f) s,
      decode_request-encode_request c h x v.payload f valid,
      canonical_lem (encode_signed c (encode_request c v.payload) v.signature),
    )

    -- A signed response whose fields have the sizes of their types and whose session key is the
    -- encoding of a point is read back from its encoding.
    pub decode_signed_response-encode_signed_response :
        (v : Signed UnwrapResponse) (key : x.Point)
        → FitsResponse v.payload
        → public_point x v.payload.phone_session_public_key ≡ ok key
        → length v.signature ≡ 64
        → decode_signed_response c x (encode_signed_response c x v) ≡ ok v
    unfolding decode_signed_response encode_signed_response
    decode_signed_response-encode_signed_response v key f valid s = rw (
      decode_signed-encode_signed (encode_response c v.payload) v.signature
          (response_le c h v.payload f) s,
      decode_response-encode_response c h x v.payload key f valid,
      canonical_lem (encode_signed c (encode_response c v.payload) v.signature),
    )

module _ (c : Cbor) (x : Crypto) where
  -- What `decode` accepts as a signed request is the encoding of what it returns: no other bytes
  -- stand for the same request.
  pub decode_signed_request_canonical :
      (b : Bytes) (v : Signed UnwrapRequest)
      → decode_signed_request c x b ≡ ok v
      → b ≡ encode_signed_request c x v
  unfolding decode_signed_request
  decode_signed_request_canonical b v e =
      let (p, e1, e2) = >>=-eq-ok _ (decode_signed c b) e in
      let (payload, e3, e4) = >>=-eq-ok _ (decode_request c x p.0) e2 in
      let value : Signed UnwrapRequest = record { payload = payload; signature = p.1 } in
      let (u, e5, e6) = >>=-eq-ok _ (canonical b (encode_signed_request c x value)) e4 in
      let same : value ≡ v = cc in
      rw (← same) (canonical_sound b (encode_signed_request c x value) u e5)

  -- What `decode` accepts as a signed response is the encoding of what it returns.
  pub decode_signed_response_canonical :
      (b : Bytes) (v : Signed UnwrapResponse)
      → decode_signed_response c x b ≡ ok v
      → b ≡ encode_signed_response c x v
  unfolding decode_signed_response
  decode_signed_response_canonical b v e =
      let (p, e1, e2) = >>=-eq-ok _ (decode_signed c b) e in
      let (payload, e3, e4) = >>=-eq-ok _ (decode_response c x p.0) e2 in
      let value : Signed UnwrapResponse = record { payload = payload; signature = p.1 } in
      let (u, e5, e6) = >>=-eq-ok _ (canonical b (encode_signed_response c x value)) e4 in
      let same : value ≡ v = cc in
      rw (← same) (canonical_sound b (encode_signed_response c x value) u e5)
