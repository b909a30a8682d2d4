-- ===== src/Protocol/RoundTrip.antt =====
-- The four payloads of crates/core/src/protocol/mod.rs are read back as they were written, and their
-- decoders accept one encoding of a payload only.
use age_plugin_phone.Base.{◌^◌, ◌<◌, ◌≡◌, [], ◌++◌, arith, length, ok}
use age_plugin_phone.Cbor.{Cbor, IsCbor}
use age_plugin_phone.Crypto.{Crypto}
use age_plugin_phone.Protocol.{PairingOffer, PairingResponse, UnwrapRequest, UnwrapResponse}
use age_plugin_phone.Protocol.Signing.{public_point}
use age_plugin_phone.Protocol.Encode.{
  encode_stanza, encode_hint, encode_offer, encode_pairing_response, encode_request,
  encode_response,
}
use age_plugin_phone.Protocol.Decode.{
  at_end, decode_offer, validate_request, validate_pairing_response, decode_pairing_response,
  decode_request, decode_response,
}
use age_plugin_phone.Protocol.Reading.{
  FitsText, FitsHint, FitsStanza, canonical_lem, hdr_lem, fixed_bytes_lem, text_lem,
  decode_stanza_lem, decode_hint_lem,
}

-- The sizes of the Rust arrays and the bounds of the texts.
pub record FitsOffer (c : Cbor) (v : PairingOffer) : Type 0 where
  pub id_fits : length v.desktop_id ≡ 16
  pub label_fits : FitsText c 64 v.desktop_label
  pub signing_fits : length v.desktop_signing_public_key ≡ 33
  pub selection_fits : length v.desktop_selection_public_key ≡ 33
  pub nonce_fits : length v.nonce ≡ 32

pub record FitsPairingResponse (c : Cbor) (v : PairingResponse) : Type 0 where
  pub id_fits : length v.identity_id ≡ 16
  pub recipient_fits : FitsText c 160 v.recipient
  pub signing_fits : length v.phone_signing_public_key ≡ 33
  pub digest_fits : length v.offer_digest ≡ 32
  pub nonce_fits : length v.nonce ≡ 32

pub record FitsRequest (c : Cbor) (v : UnwrapRequest) : Type 0 where
  pub request_fits : length v.request_id ≡ 16
  pub identity_fits : length v.identity_id ≡ 16
  pub desktop_fits : length v.desktop_id ≡ 16
  pub session_fits : length v.session_public_key ≡ 33
  pub stanza_fits : FitsStanza c v.recipient_stanza
  pub nonce_fits : length v.nonce ≡ 32
  pub time_fits : v.expires_at_unix < 2 ^ 64
  pub hint_fits : FitsHint c v.caller_hint

pub record FitsResponse (v : UnwrapResponse) : Type 0 where
  pub request_fits : length v.request_id ≡ 16
  pub digest_fits : length v.request_digest ≡ 32
  pub identity_fits : length v.identity_id ≡ 16
  pub desktop_fits : length v.desktop_id ≡ 16
  pub session_fits : length v.phone_session_public_key ≡ 33
  pub nonce_fits : length v.nonce ≡ 32
  pub sealed_fits : length v.encrypted_file_key ≡ 32

module _ (c : Cbor) (h : IsCbor c) where
  pub decode_offer-encode_offer :
      (v : PairingOffer) → FitsOffer c v → decode_offer c (encode_offer c v) ≡ ok v
  unfolding decode_offer encode_offer at_end
  decode_offer-encode_offer v f =
      let r5 = c.put_bytes v.nonce ++ [] in
      let r4 = c.put_bytes v.desktop_selection_public_key ++ r5 in
      let r3 = c.put_bytes v.desktop_signing_public_key ++ r4 in
      let r2 = c.put_str v.desktop_label ++ r3 in
      let r1 = c.put_bytes v.desktop_id ++ r2 in
      rw (
        hdr_lem c h 8 1 r1 (omega arith) (omega arith),
        fixed_bytes_lem c h 16 v.desktop_id r2 f.id_fits (omega arith),
        text_lem c h 64 v.desktop_label r3 f.label_fits (omega arith),
        fixed_bytes_lem c h 33 v.desktop_signing_public_key r4 f.signing_fits (omega arith),
        fixed_bytes_lem c h 33 v.desktop_selection_public_key r5 f.selection_fits (omega arith),
        fixed_bytes_lem c h 32 v.nonce [] f.nonce_fits (omega arith),
        canonical_lem (encode_offer c v),
      )

  module _ (x : Crypto) where
    pub decode_pairing_response-encode :
        (v : PairingResponse)
        → FitsPairingResponse c v
        → validate_pairing_response x v ≡ ok tt
        → decode_pairing_response c x (encode_pairing_response c v) ≡ ok v
    unfolding decode_pairing_response encode_pairing_response at_end
    decode_pairing_response-encode v f valid =
        let r5 = c.put_bytes v.nonce ++ [] in
        let r4 = c.put_bytes v.offer_digest ++ r5 in
        let r3 = c.put_bytes v.phone_signing_public_key ++ r4 in
        let r2 = c.put_str v.recipient ++ r3 in
        let r1 = c.put_bytes v.identity_id ++ r2 in
        rw (
          hdr_lem c h 8 2 r1 (omega arith) (omega arith),
          fixed_bytes_lem c h 16 v.identity_id r2 f.id_fits (omega arith),
          text_lem c h 160 v.recipient r3 f.recipient_fits (omega arith),
          fixed_bytes_lem c h 33 v.phone_signing_public_key r4 f.signing_fits (omega arith),
          fixed_bytes_lem c h 32 v.offer_digest r5 f.digest_fits (omega arith),
          fixed_bytes_lem c h 32 v.nonce [] f.nonce_fits (omega arith),
          canonical_lem (encode_pairing_response c v),
          valid,
        )

    pub decode_request-encode_request :
        (v : UnwrapRequest)
        → FitsRequest c v
        → validate_request x v ≡ ok tt
        → decode_request c x (encode_request c v) ≡ ok v
    unfolding decode_request encode_request at_end
    decode_request-encode_request v f valid =
        let r8 = encode_hint c v.caller_hint in
        let r7 = c.put_u64 v.expires_at_unix ++ r8 in
        let r6 = c.put_bytes v.nonce ++ r7 in
        let r5 = encode_stanza c v.recipient_stanza r6 in
        let r4 = c.put_bytes v.session_public_key ++ r5 in
        let r3 = c.put_bytes v.desktop_id ++ r4 in
        let r2 = c.put_bytes v.identity_id ++ r3 in
        let r1 = c.put_bytes v.request_id ++ r2 in
        rw (
          hdr_lem c h 11 3 r1 (omega arith) (omega arith),
          fixed_bytes_lem c h 16 v.request_id r2 f.request_fits (omega arith),
          fixed_bytes_lem c h 16 v.identity_id r3 f.identity_fits (omega arith),
          fixed_bytes_lem c h 16 v.desktop_id r4 f.desktop_fits (omega arith),
          fixed_bytes_lem c h 33 v.session_public_key r5 f.session_fits (omega arith),
          decode_stanza_lem c h v.recipient_stanza r6 f.stanza_fits,
          fixed_bytes_lem c h 32 v.nonce r7 f.nonce_fits (omega arith),
          h.u64_law v.expires_at_unix r8 f.time_fits,
          decode_hint_lem c h v.caller_hint f.hint_fits,
          canonical_lem (encode_request c v),
          valid,
        )

    pub decode_response-encode_response :
        (v : UnwrapResponse) (key : x.Point)
        → FitsResponse v
        → public_point x v.phone_session_public_key ≡ ok key
        → decode_response c x (encode_response c v) ≡ ok v
    unfolding decode_response encode_response at_end
    decode_response-encode_response v key f valid =
        let r7 = c.put_bytes v.encrypted_file_key ++ [] in
        let r6 = c.put_bytes v.nonce ++ r7 in
        let r5 = c.put_bytes v.phone_session_public_key ++ r6 in
        let r4 = c.put_bytes v.desktop_id ++ r5 in
        let r3 = c.put_bytes v.identity_id ++ r4 in
        let r2 = c.put_bytes v.request_digest ++ r3 in
        let r1 = c.put_bytes v.request_id ++ r2 in
        rw (
          hdr_lem c h 10 4 r1 (omega arith) (omega arith),
          fixed_bytes_lem c h 16 v.request_id r2 f.request_fits (omega arith),
          fixed_bytes_lem c h 32 v.request_digest r3 f.digest_fits (omega arith),
          fixed_bytes_lem c h 16 v.identity_id r4 f.identity_fits (omega arith),
          fixed_bytes_lem c h 16 v.desktop_id r5 f.desktop_fits (omega arith),
          fixed_bytes_lem c h 33 v.phone_session_public_key r6 f.session_fits (omega arith),
          fixed_bytes_lem c h 32 v.nonce r7 f.nonce_fits (omega arith),
          fixed_bytes_lem c h 32 v.encrypted_file_key [] f.sealed_fits (omega arith),
          canonical_lem (encode_response c v),
          valid,
        )
