-- ===== src/Tests/Unwraps.antt =====
-- A concrete unwrap session of crates/desktop/src/unwrap.rs.
use age_plugin_phone.Base.{
  Bytes, ◌≤◌, ◌≡◌, refl, true, false, some, [], ◌∷◌, bytes_eq, codes, replicate, length, All, ok,
}
use age_plugin_phone.Base.Exec.{◌>>◌, lift}
use age_plugin_phone.Recipient.{has_compressed_tag, public_key_bytes, from_public_key_bytes}
use age_plugin_phone.Recipient.Open.{validate_stanza}
use age_plugin_phone.Recipient.Stanza.{parse, select_argument, parse_ephemeral}
use age_plugin_phone.Protocol.{UnwrapResponse, Signed}
use age_plugin_phone.Protocol.Time.{validate_request_time, request_expiry}
use age_plugin_phone.Protocol.Signing.{response_sig, label, encode_public, public_point, hash, sign}
use age_plugin_phone.Protocol.Decode.{validate_request, validate_hint}
use age_plugin_phone.Protocol.Messages.{
  create_request, sign_request, decode_signed_request, encode_signed_response, seal_response,
}
use age_plugin_phone.Protocol.Exchange.{verify_request_with_replay}
use age_plugin_phone.Replay.Guard.{ReplayGuard, memory_store}
use age_plugin_phone.Pairing.{PublicIdentityStub}
use age_plugin_phone.Unwrap.{
  DesktopKeyState, DesktopUnwrapSession, check_desktop, pairing_of, close, begin, signed_request,
  receive_response,
}
use age_plugin_phone.Unwrap.Once.{receives, run, IsAnswer, unwrapped_once}
use age_plugin_phone.Unwrap.Answered.{begin-verify_request_with_replay, begin-receive_response}
use age_plugin_phone.Tests.Rfc8949.{rfc8949, rfc8949-IsCbor}
use age_plugin_phone.Tests.Toy.{toy, toy-IsCrypto, parse_point, compressed}
use age_plugin_phone.Tests.Messages.{
  desktop_id, identity_id, some_stanza, some_request, some_request-Fits,
}
use age_plugin_phone.Tests.Exchange.{
  toy_signer, toy_signer-IsSigner, phone_trusted, desktop_trusted, no_tokens, time_valid,
  verified_as,
}

abbrev some_stub : PublicIdentityStub
some_stub = record {
  desktop_id = desktop_id;
  identity_id = identity_id;
  recipient = codes "age1phone1";
  desktop_signing_public_key = compressed true;
  desktop_selection_public_key = compressed false;
  phone_signing_public_key = compressed false;
  offer_digest = replicate 32 8;
  transcript_fingerprint = replicate 32 9;
}

abbrev some_desktop : DesktopKeyState
some_desktop = record {
  desktop_id = desktop_id;
  signer = toy_signer true;
  agreement = record { public_key = ok (compressed false); agree = λ peer. ok (replicate 32 0) };
}

abbrev some_session : DesktopUnwrapSession toy
some_session = record {
  request = verified_as some_request;
  desktop_session = true;
  pairing = pairing_of some_stub;
  closed = false;
}

begun :
    begin rfc8949 toy some_stub some_desktop some_stanza
      (some (codes "age"))
      1000
      true
      (replicate 16 1)
      (replicate 32 2)
    ≡ ok some_session
unfolding begin check_desktop request_expiry create_request sign_request sign hash validate_request
    validate_hint label public_point has_compressed_tag encode_public validate_stanza parse
    select_argument parse_ephemeral public_key_bytes from_public_key_bytes bytes_eq parse_point
    validate_request_time
begun = refl

begin-verify_request_with_replay_example :
    (decode_signed_request rfc8949 toy (signed_request rfc8949 toy some_session)
      ≡ ok (verified_as some_request).signed)
    × (verify_request_with_replay rfc8949 toy memory_store
          (verified_as some_request).signed
          (pairing_of some_stub)
          1000
          no_tokens
        ≡ (memory_store.consume_request desktop_id identity_id
                (replicate 16 1)
                (replicate 32 2)
                1300
                1000
              >> lift (ok (verified_as some_request)))
            no_tokens)
begin-verify_request_with_replay_example =
    begin-verify_request_with_replay rfc8949 toy rfc8949-IsCbor toy-IsCrypto memory_store some_stub
      some_desktop some_stanza (some (codes "age")) 1000 true (replicate 16 1) (replicate 32 2) true
      some_session no_tokens (toy_signer-IsSigner true) desktop_trusted begun some_request-Fits

begin-receive_response_example :
    (response : Signed UnwrapResponse) × (seal_response rfc8949 toy
        (verified_as some_request)
        (codes "sixteen byte key")
        (toy_signer false)
        false
        (replicate 32 4)
      ≡ ok response)
    × ((replay after : ReplayGuard)
        → memory_store.consume_response desktop_id identity_id
            (hash toy response_sig (encode_signed_response rfc8949 toy response))
            1300
            1000
            replay
          ≡ (ok tt, after)
        → receive_response rfc8949 toy memory_store
            (encode_signed_response rfc8949 toy response)
            1000
            (some_session, replay)
          ≡ (ok (codes "sixteen byte key"), (close toy some_session, after)))
begin-receive_response_example =
    begin-receive_response rfc8949 toy rfc8949-IsCbor toy-IsCrypto memory_store some_stub
      some_desktop some_stanza (some (codes "age")) 1000 true (replicate 16 1) (replicate 32 2) true
      some_session (toy_signer-IsSigner true) begun some_request-Fits false false (toy_signer false)
      (codes "sixteen byte key") (replicate 32 4) 1000 (toy_signer-IsSigner false) phone_trusted
      refl refl time_valid

-- The response that the phone seals for the session, as bytes.
abbrev sealed : Bytes
sealed =
    encode_signed_response rfc8949 toy
      (begin-receive_response rfc8949 toy rfc8949-IsCbor toy-IsCrypto memory_store some_stub
        some_desktop some_stanza (some (codes "age")) 1000 true (replicate 16 1) (replicate 32 2)
        true some_session (toy_signer-IsSigner true) begun some_request-Fits false false
        (toy_signer false) (codes "sixteen byte key") (replicate 32 4) 1000
        (toy_signer-IsSigner false) phone_trusted refl refl time_valid).0

unwrapped_once_example :
    All
      (IsAnswer rfc8949 toy memory_store some_session no_tokens)
      (run rfc8949 toy memory_store
        (receives sealed 1000 ∷ receives sealed 1000 ∷ [])
        (some_session, no_tokens)).0
    × (length
          (run rfc8949 toy memory_store
            (receives sealed 1000 ∷ receives sealed 1000 ∷ [])
            (some_session, no_tokens)).0
        ≤ 1)
unwrapped_once_example =
    unwrapped_once rfc8949 toy memory_store (receives sealed 1000 ∷ receives sealed 1000 ∷ [])
      some_session no_tokens
