-- ===== src/Tests/Exchange.antt =====
-- Concrete exchanges of a request and a response, over the stores of
-- crates/core/src/protocol/replay.rs.
use age_plugin_phone.Base.{
  ◌<◌, ◌≡◌, refl, inl, ◌⊎◌, Bool, true, false, [], ◌∷◌, Bytes, bytes_eq, codes, replicate, ok, err,
  arith,
}
use age_plugin_phone.Base.Exec.{◌>>◌, lift}
use age_plugin_phone.Recipient.{has_compressed_tag, public_key_bytes, from_public_key_bytes}
use age_plugin_phone.Recipient.Open.{validate_stanza}
use age_plugin_phone.Recipient.Stanza.{parse, select_argument, parse_ephemeral}
use age_plugin_phone.Protocol.{
  Error, UnwrapRequest, UnwrapResponse, Signed, PairingRecord, VerifiedRequest,
}
use age_plugin_phone.Protocol.Time.{validate_request_time}
use age_plugin_phone.Protocol.Signing.{
  P256Signer, request_sig, response_sig, request_digest_domain, label, encode_public, public_point,
  verifying, hash, verify, domain_input,
}
use age_plugin_phone.Protocol.Encode.{encode_request}
use age_plugin_phone.Protocol.Decode.{validate_request, validate_hint}
use age_plugin_phone.Protocol.Messages.{
  encode_signed_request, encode_signed_response, seal_response,
}
use age_plugin_phone.Protocol.Exchange.{verify_request_with_replay, open_response}
use age_plugin_phone.Protocol.Exchange.Delivery.{IsSigner, seal_response-open_response}
use age_plugin_phone.Protocol.Exchange.Checks.{
  RequestPasses, ResponsePasses, verify_request_with_replay-checks, open_response-checks,
}
use age_plugin_phone.Protocol.Exchange.Replayed.{verified_once}
use age_plugin_phone.Protocol.Exchange.Acceptance.{create_request-verify_request_with_replay}
use age_plugin_phone.Protocol.Messages.{create_request, sign_request}
use age_plugin_phone.Protocol.Signing.{sign}
use age_plugin_phone.Base.{bytes_lt}
use age_plugin_phone.Replay.{
  entry_lt, role_try_from, phone_requests, ReplayScope, validate_capacity, scope_eq, sort, insert,
}
use age_plugin_phone.Replay.Codec.{
  encode, encode_entries, encode_entry, decode, decode_entries, decode_entry, exact_array, is_empty,
}
use age_plugin_phone.Protocol.Encode.{
  header, encode_stanza, encode_args, encode_hint, encode_signed,
}
use age_plugin_phone.Replay.Codec
use age_plugin_phone.Replay.State.{
  validate, validate_entries, out_of_order, contains, new, consume_request, prepare, reserve,
  live_at, same_request, push, finish,
}
use age_plugin_phone.Replay.Guard.{
  open_guard, written, FileReplayGuard, create, file_store, guard_request, commit_if_ok, commit,
  replace, ReplayGuard, memory_store,
}
use age_plugin_phone.Replay.Guard.Once.{reopens, run, step}
use age_plugin_phone.Replay.Guard.Accept.{create-IsSound}
use age_plugin_phone.Tests.Rfc8949.{
  rfc8949, rfc8949-IsCbor, big_endian, get_uint, get_definite, get_run, get_head, get_count,
  read_big_endian,
}
use age_plugin_phone.Tests.Toy.{
  toy, toy-IsCrypto, parse_point, total, compressed, checksum, toy_sign,
}
use age_plugin_phone.Tests.Messages.{desktop_id, identity_id, some_request}

abbrev some_record : PairingRecord
some_record = record {
  desktop_id = desktop_id;
  identity_id = identity_id;
  desktop_signing_public_key = compressed true;
  desktop_selection_public_key = compressed false;
  phone_signing_public_key = compressed false;
}

abbrev some_verified : VerifiedRequest
some_verified = record {
  signed = record { payload = some_request; signature = replicate 64 9 };
  digest = replicate 32 3;
}

abbrev pub toy_signer : Bool → P256Signer
toy_signer p = record {
  public_key = ok (compressed p);
  sign_prehash = λ digest. ok (toy_sign p digest);
}

pub toy_signer-IsSigner : (p : Bool) → IsSigner toy p (toy_signer p)
unfolding bytes_eq
toy_signer-IsSigner true message = (
  toy_sign true (checksum message),
  toy_sign true (checksum message),
  refl,
  refl,
  refl,
  refl,
  ground arith,
)
toy_signer-IsSigner false message = (
  toy_sign false (checksum message),
  toy_sign false (checksum message),
  refl,
  refl,
  refl,
  refl,
  ground arith,
)

pub phone_trusted : verifying toy (compressed false) ≡ ok false
unfolding verifying parse_point bytes_eq
phone_trusted = refl

pub desktop_trusted : verifying toy (compressed true) ≡ ok true
unfolding verifying parse_point bytes_eq
desktop_trusted = refl

session_encoded : compressed true ≡ encode_public toy true
unfolding encode_public
session_encoded = refl

pub time_valid : validate_request_time 1300 1000 ≡ ok tt
unfolding validate_request_time
time_valid = refl

seal_response-open_response_example :
    (response : Signed UnwrapResponse) × (seal_response rfc8949 toy some_verified
        (codes "sixteen byte key")
        (toy_signer false)
        false
        (replicate 32 4)
      ≡ ok response)
    × ((s : ReplayGuard)
        → open_response rfc8949 toy memory_store response some_verified some_record true 1000 s
          ≡ (memory_store.consume_response desktop_id identity_id
                  (hash toy response_sig (encode_signed_response rfc8949 toy response))
                  1300
                  1000
                >> lift (ok (codes "sixteen byte key")))
              s)
seal_response-open_response_example =
    seal_response-open_response rfc8949 toy toy-IsCrypto memory_store some_verified some_record true
      false false (toy_signer false) (codes "sixteen byte key") (replicate 32 4) 1000
      (toy_signer-IsSigner false) phone_trusted session_encoded refl refl time_valid refl

-- A request that `toy_signer true` signed, and one with the same identifier that lives longer.
abbrev signed_as : UnwrapRequest → Signed UnwrapRequest
signed_as p = record {
  payload = p;
  signature = toy_sign true (checksum (domain_input request_sig (encode_request rfc8949 p)));
}

abbrev later_request : UnwrapRequest
later_request = record some_request { nonce = replicate 32 11; expires_at_unix = 1600 }

abbrev pub no_tokens : ReplayGuard
no_tokens = record { requests = []; nonces = []; responses = [] }

abbrev some_scope : ReplayScope
some_scope = record { role = phone_requests; desktop_id = desktop_id; identity_id = identity_id }

abbrev some_guard : FileReplayGuard
some_guard = record {
  state = new some_scope 900;
  capacity = 16;
  poisoned = false;
  file = encode rfc8949 (new some_scope 900);
}

created : create rfc8949 written some_scope 16 900 ≡ ok some_guard
unfolding create validate_capacity
created = refl

abbrev pub verified_as : UnwrapRequest → VerifiedRequest
verified_as p = record {
  signed = signed_as p;
  digest = hash toy request_digest_domain (encode_signed_request rfc8949 toy (signed_as p));
}

later_request_valid : validate_request toy later_request ≡ ok tt
unfolding validate_request validate_hint label public_point has_compressed_tag encode_public
    validate_stanza parse select_argument parse_ephemeral public_key_bytes from_public_key_bytes
    bytes_eq parse_point
later_request_valid = refl

first_verified :
    (verify_request_with_replay rfc8949 toy
      (file_store rfc8949 written)
      (signed_as some_request)
      some_record
      1000
      some_guard).0
    ≡ ok (verified_as some_request)
unfolding verify_request_with_replay validate_request validate_hint label public_point
    has_compressed_tag encode_public validate_stanza parse select_argument parse_ephemeral
    public_key_bytes from_public_key_bytes bytes_eq parse_point validate_request_time verifying
    verify hash domain_input encode_request guard_request commit_if_ok commit replace
    consume_request prepare reserve scope_eq new total header encode_stanza encode_args encode_hint
    encode_signed_request encode_signed big_endian live_at same_request push finish sort insert
first_verified = refl

second_verified :
    (verify_request_with_replay rfc8949 toy
      (file_store rfc8949 written)
      (signed_as later_request)
      some_record
      1400
      (run rfc8949
        (reopens some_scope ∷ [])
        (verify_request_with_replay rfc8949 toy
          (file_store rfc8949 written)
          (signed_as some_request)
          some_record
          1000
          some_guard).1)).0
    ≡ ok (verified_as later_request)
unfolding verify_request_with_replay validate_request validate_hint label public_point
    has_compressed_tag encode_public validate_stanza parse select_argument parse_ephemeral
    public_key_bytes from_public_key_bytes bytes_eq parse_point validate_request_time verifying
    verify hash domain_input encode_request guard_request commit_if_ok commit replace
    consume_request prepare reserve scope_eq new total header encode_stanza encode_args encode_hint
    encode_signed_request encode_signed big_endian live_at same_request push finish sort insert run
    step open_guard validate_capacity encode encode_entries encode_entry decode decode_entries
    decode_entry Codec.fixed_bytes Codec.fixed exact_array is_empty get_uint get_definite get_run
    get_head get_count read_big_endian validate validate_entries out_of_order contains entry_lt
    bytes_lt role_try_from
second_verified = refl

verified_once_example : (1300 < 1400) × (1300 < 1600)
verified_once_example =
    verified_once rfc8949 toy rfc8949-IsCbor written (signed_as some_request) some_record 1000
      some_guard (verified_as some_request)
      (create-IsSound rfc8949 rfc8949-IsCbor written some_scope 16 900 some_guard refl refl
        (omega arith) created)
      refl refl first_verified (reopens some_scope ∷ []) (tt, tt) written (signed_as later_request)
      some_record 1400 (verified_as later_request) (inl refl) second_verified

verify_request_with_replay-checks_example :
    ((e : Error) × (verify_request_with_replay rfc8949 toy memory_store
          (signed_as some_request)
          some_record
          1000
          no_tokens
        ≡ (err e, no_tokens)))
    ⊎ (RequestPasses rfc8949 toy memory_store (signed_as some_request) some_record 1000
        × (verify_request_with_replay rfc8949 toy memory_store
              (signed_as some_request)
              some_record
              1000
              no_tokens
            ≡ (memory_store.consume_request desktop_id identity_id
                    (replicate 16 1)
                    (replicate 32 2)
                    1300
                    1000
                  >> lift (ok (verified_as some_request)))
                no_tokens))
verify_request_with_replay-checks_example =
    verify_request_with_replay-checks rfc8949 toy memory_store (signed_as some_request) some_record
      1000 no_tokens

abbrev some_response : Signed UnwrapResponse
some_response = record {
  payload = record {
    request_id = replicate 16 1;
    request_digest = replicate 32 3;
    identity_id = identity_id;
    desktop_id = desktop_id;
    phone_session_public_key = compressed false;
    nonce = replicate 32 4;
    encrypted_file_key = replicate 32 8;
  };
  signature = replicate 64 9;
}

open_response-checks_example :
    ((e : Error) × (open_response rfc8949 toy memory_store some_response some_verified some_record
          true 1000 no_tokens
        ≡ (err e, no_tokens)))
    ⊎ ((plaintext : Bytes) × ResponsePasses rfc8949 toy memory_store some_response some_verified
          some_record true 1000 plaintext
        × (open_response rfc8949 toy memory_store some_response some_verified some_record true 1000
              no_tokens
            ≡ (memory_store.consume_response desktop_id identity_id
                    (hash toy response_sig (encode_signed_response rfc8949 toy some_response))
                    1300
                    1000
                  >> lift (ok plaintext))
                no_tokens))
open_response-checks_example =
    open_response-checks rfc8949 toy memory_store some_response some_verified some_record true 1000
      no_tokens

created_request :
    create_request rfc8949 toy some_request (toy_signer true) some_record 1000
    ≡ ok (verified_as some_request)
unfolding create_request sign_request sign hash validate_request validate_hint label public_point
    has_compressed_tag encode_public validate_stanza parse select_argument parse_ephemeral
    public_key_bytes from_public_key_bytes bytes_eq parse_point validate_request_time
created_request = refl

create_request-verify_request_with_replay_example :
    verify_request_with_replay rfc8949 toy memory_store
      (signed_as some_request)
      some_record
      1000
      no_tokens
    ≡ (memory_store.consume_request desktop_id identity_id
            (replicate 16 1)
            (replicate 32 2)
            1300
            1000
          >> lift (ok (verified_as some_request)))
        no_tokens
create_request-verify_request_with_replay_example =
    create_request-verify_request_with_replay rfc8949 toy memory_store some_request
      (toy_signer true) some_record 1000 true (verified_as some_request) no_tokens
      (toy_signer-IsSigner true) desktop_trusted created_request
