-- ===== src/Tests/Messages.antt =====
-- Concrete messages of crates/core/src/protocol/mod.rs, and their round trips.
use age_plugin_phone.Base.{
  ◌≡◌, refl, inl, true, false, some, [], ◌∷◌, Bytes, bytes_eq, codes, replicate, ok, arith,
}
use age_plugin_phone.Recipient.{
  TaggedStanza, stanza_tag, has_compressed_tag, public_key_bytes, from_public_key_bytes,
}
use age_plugin_phone.Recipient.Open.{validate_stanza}
use age_plugin_phone.Recipient.Stanza.{parse, select_argument, parse_ephemeral}
use age_plugin_phone.Protocol.{PairingOffer, UnwrapRequest, UnwrapResponse, Signed}
use age_plugin_phone.Protocol.Signing.{label, encode_public, public_point}
use age_plugin_phone.Protocol.Decode.{validate_request, validate_hint}
use age_plugin_phone.Protocol.RoundTrip.{FitsRequest, FitsResponse}
use age_plugin_phone.Protocol.Messages.{
  encode_signed_request, decode_signed_request, encode_signed_response, decode_signed_response,
}
use age_plugin_phone.Protocol.Messages.Wire.{
  decode_signed_request-encode_signed_request, decode_signed_response-encode_signed_response,
  decode_signed_request_canonical,
}
use age_plugin_phone.Tests.Rfc8949.{rfc8949, rfc8949-IsCbor}
use age_plugin_phone.Tests.Toy.{toy, parse_point, compressed}

abbrev pub desktop_id : Bytes
desktop_id = codes "a desktop's name"

abbrev pub identity_id : Bytes
identity_id = codes "an identity name"

abbrev pub some_stanza : TaggedStanza
some_stanza = record { tag = stanza_tag; args = compressed true ∷ []; body = replicate 32 7 }

abbrev pub some_request : UnwrapRequest
some_request = record {
  request_id = replicate 16 1;
  identity_id = identity_id;
  desktop_id = desktop_id;
  session_public_key = compressed true;
  recipient_stanza = some_stanza;
  nonce = replicate 32 2;
  expires_at_unix = 1300;
  caller_hint = some (codes "age");
}

abbrev pub some_signature : Bytes
some_signature = replicate 64 9

abbrev some_offer : Signed PairingOffer
some_offer = record {
  payload = record {
    desktop_id = desktop_id;
    desktop_label = codes "laptop";
    desktop_signing_public_key = compressed true;
    desktop_selection_public_key = compressed false;
    nonce = replicate 32 5;
  };
  signature = some_signature;
}

pub some_request_valid : validate_request toy some_request ≡ ok tt
unfolding validate_request validate_hint label public_point has_compressed_tag encode_public
    validate_stanza parse select_argument parse_ephemeral public_key_bytes from_public_key_bytes
    bytes_eq parse_point
some_request_valid = refl

abbrev some_signed_request : Signed UnwrapRequest
some_signed_request = record { payload = some_request; signature = some_signature }

pub some_request-Fits : FitsRequest rfc8949 some_request
some_request-Fits = record {
  request_fits = refl;
  identity_fits = refl;
  desktop_fits = refl;
  session_fits = refl;
  stanza_fits = record {
    tag_fits = (omega arith, refl);
    args_count = inl refl;
    args_fit = ((omega arith, refl), tt);
    body_fits = refl;
  };
  nonce_fits = refl;
  time_fits = omega arith;
  hint_fits = (omega arith, refl);
}

decode_signed_request-encode_signed_request_example :
    decode_signed_request rfc8949 toy (encode_signed_request rfc8949 toy some_signed_request)
    ≡ ok some_signed_request
decode_signed_request-encode_signed_request_example =
    decode_signed_request-encode_signed_request rfc8949 rfc8949-IsCbor toy some_signed_request
      some_request-Fits some_request_valid refl

decode_signed_request_canonical_example :
    encode_signed_request rfc8949 toy some_signed_request
    ≡ encode_signed_request rfc8949 toy some_signed_request
decode_signed_request_canonical_example =
    decode_signed_request_canonical rfc8949 toy
      (encode_signed_request rfc8949 toy some_signed_request) some_signed_request
      (decode_signed_request-encode_signed_request rfc8949 rfc8949-IsCbor toy some_signed_request
        some_request-Fits some_request_valid refl)

abbrev some_signed_response : Signed UnwrapResponse
some_signed_response = record {
  payload = record {
    request_id = replicate 16 1;
    request_digest = replicate 32 3;
    identity_id = identity_id;
    desktop_id = desktop_id;
    phone_session_public_key = compressed false;
    nonce = replicate 32 4;
    encrypted_file_key = replicate 32 8;
  };
  signature = some_signature;
}

session_key_valid : public_point toy (compressed false) ≡ ok false
unfolding public_point has_compressed_tag encode_public bytes_eq parse_point
session_key_valid = refl

some_response-Fits : FitsResponse some_signed_response.payload
some_response-Fits = record {
  request_fits = refl;
  digest_fits = refl;
  identity_fits = refl;
  desktop_fits = refl;
  session_fits = refl;
  nonce_fits = refl;
  sealed_fits = refl;
}

decode_signed_response-encode_signed_response_example :
    decode_signed_response rfc8949 toy (encode_signed_response rfc8949 toy some_signed_response)
    ≡ ok some_signed_response
decode_signed_response-encode_signed_response_example =
    decode_signed_response-encode_signed_response rfc8949 rfc8949-IsCbor toy some_signed_response
      false some_response-Fits session_key_valid refl
