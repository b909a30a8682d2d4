-- ===== src/Protocol/Decode.antt =====
-- crates/core/src/protocol/mod.rs: the strict decoders. A decoder is the part of the message that it
-- has not read.
use age_plugin_phone.Base.{
  ℕ, zero, suc, false, ◌||◌, Option, some, none, List, [], ◌∷◌, Bytes, bytes_eq, length, ltb, ◌==◌,
  if◌then◌else◌, Result, ok, err, ok_or, ensure, refuse, ◌>>=◌, ◌>>◌,
}
use age_plugin_phone.Cbor.{Cbor, Datatype, null, string, other}
use age_plugin_phone.Crypto.{Crypto}
use age_plugin_phone.Recipient.{TaggedStanza, parse_recipient, public_key_bytes}
use age_plugin_phone.Recipient.Stanza.{map_err}
use age_plugin_phone.Recipient.Open.{validate_stanza}
use age_plugin_phone.Protocol.{
  Error, malformed, unsupported_version, unexpected_message_type, unsupported_suite,
  invalid_recipient_stanza, invalid_public_key, protocol_version, algorithm_suite,
  max_protocol_time, max_signed_message_bytes, PairingOffer, PairingResponse, UnwrapRequest,
  UnwrapResponse,
}
use age_plugin_phone.Protocol.Signing.{label, verifying, public_point}
use age_plugin_phone.Protocol.Encode.{
  offer_kind, pairing_response_kind, request_kind, response_kind, encode_offer,
  encode_pairing_response, encode_request, encode_response,
}

-- `fixed::<N>`
unfoldable pub fixed : ℕ → Bytes → Result Error Bytes
fixed n bytes = if length bytes == n then ok bytes else err malformed

-- `end`
unfoldable pub at_end : Bytes → Result Error (Unit {0})
at_end [] = ok tt
at_end (b ∷ d) = err malformed

unfoldable pub canonical : Bytes → Bytes → Result Error (Unit {0})
canonical a b = if bytes_eq a b then ok tt else err malformed

-- `matches!(argument_count, Some(1 | 2))`
unfoldable pub argument_count : Option ℕ → Result Error ℕ
argument_count none = err malformed
argument_count (some n) = if n == 1 || n == 2 then ok n else err malformed

module _ (c : Cbor) where
  open c use {get_array, get_u16, get_u64, get_bytes, get_str, get_null, datatype}

  unfoldable pub arr : ℕ → Bytes → Result Error Bytes
  arr n d = do
    (size, d) ← ok_or (get_array d) malformed
    ensure (elim size [ none ↦ false | some m ↦ m == n ]) malformed
    ok d

  unfoldable pub hdr : ℕ → ℕ → Bytes → Result Error Bytes
  hdr n kind d = do
    d ← arr n d
    (version, d) ← ok_or (get_u16 d) malformed
    ensure (version == protocol_version) unsupported_version
    (found, d) ← ok_or (get_u16 d) malformed
    ensure (found == kind) unexpected_message_type
    (suite, d) ← ok_or (get_u16 d) malformed
    ensure (suite == algorithm_suite) unsupported_suite
    ok d

  -- `fixed(d.bytes()?)?`
  unfoldable pub fixed_bytes : ℕ → Bytes → Result Error (Bytes × Bytes)
  unfolding fixed
  fixed_bytes n d = do
    (bytes, d) ← ok_or (get_bytes d) malformed
    bytes ← fixed n bytes
    ok (bytes, d)

  unfoldable pub text : ℕ → Bytes → Result Error (Bytes × Bytes)
  text max d = do
    (s, d) ← ok_or (get_str d) malformed
    refuse (ltb max (length s)) malformed
    ok (s, d)

  unfoldable pub decode_signed : Bytes → Result Error (Bytes × Bytes)
  decode_signed b = do
    refuse (length b == 0 || ltb max_signed_message_bytes (length b)) malformed
    d ← arr 2 b
    (p, d) ← ok_or (get_bytes d) malformed
    (s, d) ← fixed_bytes 64 d
    at_end d
    ok (p, s)

  unfoldable pub decode_offer : Bytes → Result Error PairingOffer
  decode_offer b = do
    d ← hdr 8 offer_kind b
    (desktop_id, d) ← fixed_bytes 16 d
    (desktop_label, d) ← text 64 d
    (signing, d) ← fixed_bytes 33 d
    (selection, d) ← fixed_bytes 33 d
    (nonce, d) ← fixed_bytes 32 d
    let v : PairingOffer = record {
      desktop_id = desktop_id;
      desktop_label = desktop_label;
      desktop_signing_public_key = signing;
      desktop_selection_public_key = selection;
      nonce = nonce;
    }
    at_end d
    canonical b (encode_offer c v)
    ok v

  -- The loop over `0..argument_count`.
  unfoldable pub decode_args : ℕ → Bytes → Result Error (List Bytes × Bytes)
  decode_args zero d = ok ([], d)
  decode_args (suc n) d = do
    (argument, d) ← text 128 d
    (args, d) ← decode_args n d
    ok (argument ∷ args, d)

  unfoldable pub decode_stanza : Bytes → Result Error (TaggedStanza × Bytes)
  decode_stanza d = do
    d ← arr 3 d
    (tag, d) ← text 64 d
    (size, d) ← ok_or (get_array d) malformed
    count ← argument_count size
    (args, d) ← decode_args count d
    (body, d) ← ok_or (get_bytes d) malformed
    ensure (length body == 32) malformed
    ok (record { tag = tag; args = args; body = body }, d)

  unfoldable pub decode_hint_as : Datatype → Bytes → Result Error (Option Bytes × Bytes)
  decode_hint_as null d = do d ← ok_or (get_null d) malformed; ok (none, d)
  decode_hint_as string d = do (s, d) ← text 64 d; ok (some s, d)
  decode_hint_as other d = err malformed

  unfoldable pub decode_hint : Bytes → Result Error (Option Bytes × Bytes)
  unfolding decode_hint_as
  decode_hint d = do kind ← ok_or (datatype d) malformed; decode_hint_as kind d

module _ (x : Crypto) where
  unfoldable pub validate_hint : Option Bytes → Result Error (Unit {0})
  validate_hint none = ok tt
  validate_hint (some hint) = label hint

  unfoldable pub validate_request : UnwrapRequest → Result Error (Unit {0})
  validate_request value = do
    refuse (ltb max_protocol_time value.expires_at_unix) malformed
    _ ← public_point x value.session_public_key
    map_err (validate_stanza x value.recipient_stanza) invalid_recipient_stanza
    validate_hint value.caller_hint

  unfoldable pub validate_pairing_response : PairingResponse → Result Error (Unit {0})
  validate_pairing_response value = do
    identity ← map_err (parse_recipient x value.recipient) invalid_recipient_stanza
    _ ← verifying x value.phone_signing_public_key
    refuse (bytes_eq (public_key_bytes x identity) value.phone_signing_public_key)
        invalid_public_key

module _ (c : Cbor) (x : Crypto) where
  unfoldable pub decode_pairing_response : Bytes → Result Error PairingResponse
  decode_pairing_response b = do
    d ← hdr c 8 pairing_response_kind b
    (identity_id, d) ← fixed_bytes c 16 d
    (recipient, d) ← text c 160 d
    (signing, d) ← fixed_bytes c 33 d
    (digest, d) ← fixed_bytes c 32 d
    (nonce, d) ← fixed_bytes c 32 d
    let v : PairingResponse = record {
      identity_id = identity_id;
      recipient = recipient;
      phone_signing_public_key = signing;
      offer_digest = digest;
      nonce = nonce;
    }
    at_end d
    canonical b (encode_pairing_response c v)
    validate_pairing_response x v
    ok v

  unfoldable pub decode_request : Bytes → Result Error UnwrapRequest
  decode_request b = do
    d ← hdr c 11 request_kind b
    (request_id, d) ← fixed_bytes c 16 d
    (identity_id, d) ← fixed_bytes c 16 d
    (desktop_id, d) ← fixed_bytes c 16 d
    (session, d) ← fixed_bytes c 33 d
    (stanza, d) ← decode_stanza c d
    (nonce, d) ← fixed_bytes c 32 d
    (expires, d) ← ok_or (c.get_u64 d) malformed
    (hint, d) ← decode_hint c d
    let v : UnwrapRequest = record {
      request_id = request_id;
      identity_id = identity_id;
      desktop_id = desktop_id;
      session_public_key = session;
      recipient_stanza = stanza;
      nonce = nonce;
      expires_at_unix = expires;
      caller_hint = hint;
    }
    at_end d
    canonical b (encode_request c v)
    validate_request x v
    ok v

  unfoldable pub decode_response : Bytes → Result Error UnwrapResponse
  decode_response b = do
    d ← hdr c 10 response_kind b
    (request_id, d) ← fixed_bytes c 16 d
    (digest, d) ← fixed_bytes c 32 d
    (identity_id, d) ← fixed_bytes c 16 d
    (desktop_id, d) ← fixed_bytes c 16 d
    (session, d) ← fixed_bytes c 33 d
    (nonce, d) ← fixed_bytes c 32 d
    (sealed, d) ← fixed_bytes c 32 d
    let v : UnwrapResponse = record {
      request_id = request_id;
      request_digest = digest;
      identity_id = identity_id;
      desktop_id = desktop_id;
      phone_session_public_key = session;
      nonce = nonce;
      encrypted_file_key = sealed;
    }
    at_end d
    canonical b (encode_response c v)
    _ ← public_point x v.phone_session_public_key
    ok v
