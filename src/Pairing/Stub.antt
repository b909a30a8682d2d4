-- ===== src/Pairing/Stub.antt =====
-- crates/desktop/src/pairing.rs: `PublicIdentityStub` as bytes, as recipients and as an age identity.
pub mod RoundTrip
use age_plugin_phone.Base.{
  ℕ, Bool, true, false, not, ◌&&◌, ◌||◌, Option, some, none, List, [], ◌∷◌, ◌++◌, Bytes, codes,
  bytes_eq, length, ◌==◌, if◌then◌else◌, Result, ok, err, ok_or, ensure, refuse, ◌>>=◌, ◌>>◌,
}
use age_plugin_phone.Cbor.{Cbor}
use age_plugin_phone.Crypto.{Crypto}
use age_plugin_phone.Recipient.{
  PairedRecipient, parse_recipient, public_key_bytes, from_public_fields, paired_to_string,
  to_ascii_lowercase,
}
use age_plugin_phone.Recipient.Stanza.{map_err}
use age_plugin_phone.Recipient.Tag.{tag_recipient}
use age_plugin_phone.Protocol.{algorithm_suite}
use age_plugin_phone.Pairing.{
  plugin_name, stub_version, identity_hrp, PairingError, malformed_stub, unsupported_stub,
  stub_encoding, RecipientType, phone, tag, PublicIdentityStub, to_ascii_uppercase,
}

-- `value.is_err()` of a parsed key.
abbrev pub parses : {A : Type 0} → Option A → Bool
parses none = false
parses (some key) = true

module _ (c : Cbor) where
  open c use {put_array, put_u16, put_bytes, put_str, get_array, get_u16, get_bytes, get_str}

  unfoldable pub encode_stub : PublicIdentityStub → Bytes
  encode_stub v =
      put_array 11
      ++ (put_u16 stub_version
          ++ (put_u16 algorithm_suite
              ++ (put_bytes v.desktop_id
                  ++ (put_bytes v.identity_id
                      ++ (put_str v.recipient
                          ++ (put_bytes v.desktop_signing_public_key
                              ++ (put_bytes v.desktop_selection_public_key
                                  ++ (put_bytes v.phone_signing_public_key
                                      ++ (put_bytes v.offer_digest
                                          ++ (put_bytes v.transcript_fingerprint
                                              ++ (put_str plugin_name ++ [])))))))))))

  -- `fixed(decoder.bytes()?)?`
  unfoldable pub fixed_bytes : ℕ → Bytes → Result PairingError (Bytes × Bytes)
  fixed_bytes n d = do
    (bytes, d) ← ok_or (get_bytes d) malformed_stub
    ensure (length bytes == n) malformed_stub
    ok (bytes, d)

module _ (c : Cbor) (x : Crypto) where
  open x use {from_sec1_bytes}

  -- The five keys parse and are pairwise different, the identity's and the phone's from all others.
  unfoldable pub keys_are_separate : Bytes → PublicIdentityStub → Bool
  keys_are_separate identity v =
      parses (from_sec1_bytes v.desktop_signing_public_key)
      && (parses (from_sec1_bytes v.desktop_selection_public_key)
          && (not (bytes_eq v.desktop_selection_public_key v.desktop_signing_public_key)
              && (parses (from_sec1_bytes v.phone_signing_public_key)
                  && (not (bytes_eq identity v.desktop_signing_public_key)
                      && (not (bytes_eq identity v.desktop_selection_public_key)
                          && (not (bytes_eq identity v.phone_signing_public_key)
                              && (not (
                                    bytes_eq v.phone_signing_public_key
                                      v.desktop_signing_public_key)
                                  && not (
                                      bytes_eq v.phone_signing_public_key
                                        v.desktop_selection_public_key))))))))

  -- The checks behind the fields: the plugin's name, the end, the canonical encoding and the keys.
  unfoldable pub check_stub :
      Bytes → Bytes → PublicIdentityStub → Result PairingError PublicIdentityStub
  check_stub bytes d v = do
    recipient ← map_err (parse_recipient x v.recipient) malformed_stub
    (name, d) ← ok_or (c.get_str d) malformed_stub
    ensure
        (bytes_eq name plugin_name
          && (length d == 0
              && (bytes_eq (encode_stub c v) bytes
                  && keys_are_separate (public_key_bytes x recipient) v)))
        malformed_stub
    ok v

  unfoldable pub decode_stub : Bytes → Result PairingError PublicIdentityStub
  unfolding check_stub
  decode_stub bytes = do
    (size, d) ← ok_or (c.get_array bytes) malformed_stub
    ensure (elim size [ none ↦ false | some n ↦ n == 11 ]) malformed_stub
    (version, d) ← ok_or (c.get_u16 d) malformed_stub
    ensure (version == stub_version) unsupported_stub
    (suite, d) ← ok_or (c.get_u16 d) malformed_stub
    ensure (suite == algorithm_suite) unsupported_stub
    (desktop_id, d) ← fixed_bytes c 16 d
    (identity_id, d) ← fixed_bytes c 16 d
    (recipient, d) ← ok_or (c.get_str d) malformed_stub
    (signing, d) ← fixed_bytes c 33 d
    (selection, d) ← fixed_bytes c 33 d
    (phone_signing, d) ← fixed_bytes c 33 d
    (digest, d) ← fixed_bytes c 32 d
    (fingerprint, d) ← fixed_bytes c 32 d
    check_stub bytes d (record {
      desktop_id = desktop_id;
      identity_id = identity_id;
      recipient = recipient;
      desktop_signing_public_key = signing;
      desktop_selection_public_key = selection;
      phone_signing_public_key = phone_signing;
      offer_digest = digest;
      transcript_fingerprint = fingerprint;
    })

  unfoldable pub paired_recipient :
      PublicIdentityStub → Result PairingError (PairedRecipient x.Point)
  paired_recipient v = do
    key ← map_err (parse_recipient x v.recipient) malformed_stub
    map_err
        (from_public_fields x (public_key_bytes x key) v.desktop_selection_public_key v.identity_id)
        malformed_stub

  -- `selectable_recipient` and `phone_recipient`
  unfoldable pub phone_recipient : PublicIdentityStub → Result PairingError Bytes
  phone_recipient v = do
    paired ← paired_recipient v
    map_err (paired_to_string x paired) stub_encoding

  unfoldable pub stub_tag_recipient : PublicIdentityStub → Result PairingError Bytes
  stub_tag_recipient v = do
    key ← map_err (parse_recipient x v.recipient) malformed_stub
    map_err (tag_recipient x key) stub_encoding

  unfoldable pub recipient_for : RecipientType → PublicIdentityStub → Result PairingError Bytes
  unfolding phone_recipient stub_tag_recipient
  recipient_for phone v = phone_recipient v
  recipient_for tag v = stub_tag_recipient v

  unfoldable pub plugin_identity : PublicIdentityStub → Result PairingError Bytes
  plugin_identity v = do
    text ← ok_or (x.bech32_encode identity_hrp (encode_stub c v)) stub_encoding
    ok (to_ascii_uppercase text)

  -- The lines of an identity file, and the newline that ends each.
  unfoldable pub identity_file_for : RecipientType → PublicIdentityStub → Result PairingError Bytes
  identity_file_for kind v = do
    recipient ← recipient_for kind v
    identity ← plugin_identity v
    ok (
        codes "# recipient: "
        ++ (recipient
            ++ (10
                ∷ (codes "# public age-plugin-phone identity stub"
                    ++ (10 ∷ (identity ++ (10 ∷ [])))))))
