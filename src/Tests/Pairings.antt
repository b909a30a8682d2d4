-- ===== src/Tests/Pairings.antt =====
-- Concrete pairings of crates/desktop/src/pairing.rs.
use age_plugin_phone.Base.{
  ◌≤◌, ◌≡◌, refl, true, false, [], ◌∷◌, ◌++◌, Bytes, bytes_eq, bytes_eq_refl, codes, replicate,
  length, All, ok, arith,
}
use age_plugin_phone.Recipient.{
  recipient_hrp, has_compressed_tag, public_key_bytes, from_public_key_bytes, parse_recipient,
  recipient_to_string, to_ascii_lowercase,
}
use age_plugin_phone.Protocol.{PairingOffer, PairingResponse, Signed}
use age_plugin_phone.Protocol.Signing.{
  P256Signer, offer_sig, pairing_sig, label, encode_public, public_point, verifying, hash, verify,
  domain_input, sign,
}
use age_plugin_phone.Protocol.Encode.{header, encode_offer, encode_pairing_response, encode_signed}
use age_plugin_phone.Protocol.Decode.{validate_pairing_response}
use age_plugin_phone.Protocol.RoundTrip.{FitsPairingResponse}
use age_plugin_phone.Protocol.Messages.{
  sign_offer, verify_offer, encode_signed_offer, offer_digest, sign_pairing_response, shares_key,
  verify_pairing_response, encode_signed_pairing_response, pairing_fingerprint,
}
use age_plugin_phone.Protocol.Exchange.Delivery.{IsSigner}
use age_plugin_phone.Pairing.{PublicIdentityStub, hex}
use age_plugin_phone.Pairing.Stub.{keys_are_separate, encode_stub, decode_stub}
use age_plugin_phone.Pairing.Stub.RoundTrip.{
  FitsStub, IsChecked, decode_stub-encode_stub, decode_stub_sound,
}
use age_plugin_phone.Pairing.Session.{
  waiting, DesktopPairingSession, close, begin, stub_from_response,
}
use age_plugin_phone.Pairing.Session.Steps.{receives, cancels, receive_response, confirm}
use age_plugin_phone.Pairing.Session.Once.{IsPaired, run, confirmed_once}
use age_plugin_phone.Pairing.Session.Complete.{paired_decode_stub-encode_stub}
use age_plugin_phone.Pairing.Session.Honest.{HoldsKey, KeysApart, begin-receive_response-confirm}
use age_plugin_phone.Tests.Rfc8949.{rfc8949, rfc8949-IsCbor, big_endian}
use age_plugin_phone.Tests.Toy.{total, checksum}
use age_plugin_phone.Tests.Keys.{
  Key, short, find_key, keyed_sign, tally, untally, cut, keyed, keyed-IsCrypto,
}
use age_plugin_phone.Tests.Messages.{desktop_id, identity_id}

abbrev key_signer : Key → P256Signer
key_signer p = record {
  public_key = ok (short p);
  sign_prehash = λ digest. ok (keyed_sign p digest);
}

key_signer-IsSigner : (p : Key) → IsSigner keyed p (key_signer p)
key_signer-IsSigner p message = (
  keyed_sign p (checksum message),
  keyed_sign p (checksum message),
  refl,
  refl,
  refl,
  refl,
  bytes_eq_refl (keyed_sign p (checksum message)),
)

key_signer-HoldsKey : (p : Key) → HoldsKey keyed p (key_signer p)
unfolding encode_public
key_signer-HoldsKey p = (refl, key_signer-IsSigner p)

abbrev desktop_key : Key
desktop_key = (false, false)

abbrev selection_key : Key
selection_key = (false, true)

abbrev identity_key : Key
identity_key = (true, false)

abbrev phone_key : Key
phone_key = (true, true)

abbrev offered : PairingOffer
offered = record {
  desktop_id = desktop_id;
  desktop_label = codes "laptop";
  desktop_signing_public_key = short desktop_key;
  desktop_selection_public_key = short selection_key;
  nonce = replicate 32 5;
}

abbrev some_offer : Signed PairingOffer
some_offer = record {
  payload = offered;
  signature =
      keyed_sign desktop_key (checksum (domain_input offer_sig (encode_offer rfc8949 offered)));
}

abbrev some_session : DesktopPairingSession
some_session = record { offer = some_offer; started_at_ms = 5000; state = waiting }

begun :
    begin rfc8949 keyed desktop_id
      (codes "laptop")
      (key_signer desktop_key)
      (short selection_key)
      5000
      (replicate 32 5)
    ≡ ok some_session
unfolding begin sign_offer label public_point has_compressed_tag encode_public bytes_eq find_key
    sign hash
begun = refl

-- The recipient's text, in the Bech32 of `keyed`.
abbrev recipient_text : Bytes
recipient_text = recipient_hrp ++ (49 ∷ tally (1 ∷ short identity_key))

recipient_parses : parse_recipient keyed recipient_text ≡ ok identity_key
unfolding parse_recipient recipient_to_string public_key_bytes from_public_key_bytes
    to_ascii_lowercase bytes_eq find_key cut untally tally
recipient_parses = refl

abbrev answered : PairingResponse
answered = record {
  identity_id = identity_id;
  recipient = recipient_text;
  phone_signing_public_key = short phone_key;
  offer_digest = offer_digest rfc8949 keyed some_offer;
  nonce = replicate 32 6;
}

abbrev some_response : Signed PairingResponse
some_response = record {
  payload = answered;
  signature =
      keyed_sign phone_key
        (checksum (domain_input pairing_sig (encode_pairing_response rfc8949 answered)));
}

answered-Fits : FitsPairingResponse rfc8949 answered
unfolding tally offer_digest hash
answered-Fits = record {
  id_fits = refl;
  recipient_fits = (omega arith, refl);
  signing_fits = refl;
  digest_fits = refl;
  nonce_fits = refl;
}

apart : KeysApart rfc8949 keyed offered answered
unfolding shares_key public_key_bytes bytes_eq
apart = (identity_key, recipient_parses, refl)

response_signed :
    sign_pairing_response rfc8949 keyed answered (key_signer phone_key) ≡ ok some_response
unfolding sign_pairing_response validate_pairing_response parse_recipient recipient_to_string
    public_key_bytes from_public_key_bytes to_ascii_lowercase bytes_eq find_key cut untally tally
    verifying sign hash
response_signed = refl

abbrev some_fingerprint : Bytes
some_fingerprint = pairing_fingerprint rfc8949 keyed some_offer some_response

abbrev pub confirmed_stub : PublicIdentityStub
confirmed_stub = stub_from_response rfc8949 keyed some_offer some_response some_fingerprint

begin-receive_response-confirm_example :
    let shown =
      receive_response rfc8949 keyed
        (encode_signed_pairing_response rfc8949 keyed some_response)
        6000
        some_session in
    (shown.0
      ≡ ok (record {
        desktop_label = codes "laptop";
        transcript_fingerprint = hex some_fingerprint;
      }))
    × (confirm rfc8949 keyed (hex some_fingerprint) 7000 shown.1
        ≡ (ok confirmed_stub, close some_session))
begin-receive_response-confirm_example =
    begin-receive_response-confirm rfc8949 keyed keyed-IsCrypto rfc8949-IsCbor desktop_id
      (codes "laptop") (key_signer desktop_key) (short selection_key) 5000 (replicate 32 5)
      desktop_key some_session (key_signer-HoldsKey desktop_key) begun answered
      (key_signer phone_key) phone_key some_response (key_signer-HoldsKey phone_key) answered-Fits
      refl apart response_signed 6000 7000 (omega arith, omega arith) (omega arith, omega arith)

confirmed_once_example :
    (length (run rfc8949 keyed (receives [] 6000 ∷ cancels ∷ []) some_session).0 ≤ 1)
    × All
        (IsPaired rfc8949 keyed some_offer)
        (run rfc8949 keyed (receives [] 6000 ∷ cancels ∷ []) some_session).0
confirmed_once_example =
    confirmed_once rfc8949 keyed (receives [] 6000 ∷ cancels ∷ []) some_session tt

response_verified : verify_pairing_response rfc8949 keyed some_response some_offer ≡ ok tt
unfolding verify_pairing_response verify_offer label public_point has_compressed_tag encode_public
    validate_pairing_response parse_recipient recipient_to_string public_key_bytes
    from_public_key_bytes to_ascii_lowercase bytes_eq find_key cut untally tally shares_key
    verifying verify offer_digest hash total encode_offer header big_endian encode_signed_offer
    encode_signed encode_pairing_response
response_verified = refl

pub confirmed-Fits : FitsStub rfc8949 confirmed_stub
unfolding stub_from_response tally offer_digest pairing_fingerprint hash
confirmed-Fits = record {
  desktop_fits = refl;
  identity_fits = refl;
  recipient_fits = omega arith;
  recipient_text = refl;
  signing_fits = refl;
  selection_fits = refl;
  phone_fits = refl;
  digest_fits = refl;
  fingerprint_fits = refl;
}

paired_decode_stub-encode_stub_example :
    decode_stub rfc8949 keyed (encode_stub rfc8949 confirmed_stub) ≡ ok confirmed_stub
paired_decode_stub-encode_stub_example =
    paired_decode_stub-encode_stub rfc8949 keyed rfc8949-IsCbor some_offer confirmed_stub
      (some_response, response_verified, refl) confirmed-Fits

separate :
    keys_are_separate rfc8949 keyed (public_key_bytes keyed identity_key) confirmed_stub ≡ true
unfolding keys_are_separate stub_from_response public_key_bytes find_key bytes_eq
separate = refl

pub parses_again : parse_recipient keyed confirmed_stub.recipient ≡ ok identity_key
unfolding stub_from_response
parses_again = recipient_parses

pub confirmed_readable :
    decode_stub rfc8949 keyed (encode_stub rfc8949 confirmed_stub) ≡ ok confirmed_stub
confirmed_readable =
    decode_stub-encode_stub rfc8949 rfc8949-IsCbor keyed confirmed_stub identity_key confirmed-Fits
      parses_again separate

decode_stub_sound_example :
    IsChecked rfc8949 keyed (encode_stub rfc8949 confirmed_stub) confirmed_stub
decode_stub_sound_example =
    decode_stub_sound rfc8949 keyed (encode_stub rfc8949 confirmed_stub) confirmed_stub (
      decode_stub-encode_stub rfc8949 rfc8949-IsCbor keyed confirmed_stub identity_key
        confirmed-Fits parses_again separate)
