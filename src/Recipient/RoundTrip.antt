-- ===== src/Recipient/RoundTrip.antt =====
-- A stanza that was wrapped for a recipient is unwrapped by its identity, in each of the three
-- constructions of crates/core/src/recipient/.
use age_plugin_phone.Base.{
  ◌≡◌, refl, true, some, none, [], ◌∷◌, arith, Bytes, length, bytes_eq, bytes_eq_refl, ok,
}
use age_plugin_phone.Crypto.{Crypto, IsCrypto}
use age_plugin_phone.Recipient.{
  TaggedStanza, public_key_bytes, derive_key, stanza_tag, zero_nonce, kdf_info, associated_data,
}
use age_plugin_phone.Recipient.Keys.{from_public_key_bytes-public_key_bytes, derive_key_total}
use age_plugin_phone.Recipient.Stanza.{v1, select_argument, parse_ephemeral, parse}
use age_plugin_phone.Recipient.Wrap.{wrap_from_shared_secret, wrap_file_key}
use age_plugin_phone.Recipient.Open.{
  validate_stanza, decrypt_with_shared_secret, unwrap_file_key, kdf_parameters,
}

module _ (x : Crypto) (h : IsCrypto x) where
  parse_v1 :
      (p : x.Point) (body : Bytes)
      → length body ≡ 32
      → parse x (record {
        tag = stanza_tag;
        args = x.base64_encode (public_key_bytes x p) ∷ [];
        body = body;
      })
        ≡ ok (record {
          version = v1;
          ephemeral = p;
          ephemeral_bytes = public_key_bytes x p;
          selection = none;
          body = body;
        })
  unfolding parse select_argument parse_ephemeral public_key_bytes bytes_eq
  parse_v1 p body l = ground (
    arith,
    h.base64_law (x.to_encoded_point p true),
    bytes_eq_refl (x.base64_encode (x.to_encoded_point p true)),
    from_public_key_bytes-public_key_bytes x h p,
    h.compressed_length p,
  )

  module _ (recipient : x.Point) (enc shared key file_key body : Bytes) (cipher : x.Cipher)
      (derived : derive_key x shared enc (public_key_bytes x recipient) kdf_info ≡ ok key)
      (built : x.cipher_from_slice key ≡ some cipher) where
    wrap_step :
        length enc ≡ 33
        → x.encrypt cipher zero_nonce file_key (associated_data enc (public_key_bytes x recipient))
          ≡ some body
        → wrap_from_shared_secret x recipient enc shared file_key
          ≡ ok (record { tag = stanza_tag; args = x.base64_encode enc ∷ []; body = body })
    unfolding wrap_from_shared_secret
    wrap_step l sealed = ground arith

    decrypt_step :
        (p : x.Point)
        → length file_key ≡ 16
        → x.decrypt cipher zero_nonce body (associated_data enc (public_key_bytes x recipient))
          ≡ some file_key
        → decrypt_with_shared_secret x recipient
            (record {
              version = v1;
              ephemeral = p;
              ephemeral_bytes = enc;
              selection = none;
              body = body;
            })
            shared
          ≡ ok file_key
    unfolding decrypt_with_shared_secret kdf_parameters
    decrypt_step p l opened = ground arith

  -- Wrapping a 16-byte file key for the public key of an identity gives a stanza that is well formed and that the
  -- identity unwraps to the file key.
  pub wrap-unwrap :
      (identity ephemeral : x.Scalar) (file_key : Bytes)
      → length file_key ≡ 16
      → (stanza : TaggedStanza) × (wrap_file_key x (x.public_key identity) file_key ephemeral
          ≡ ok stanza)
        × (validate_stanza x stanza ≡ ok tt)
        × (unwrap_file_key x identity stanza ≡ ok file_key)
  wrap-unwrap identity ephemeral file_key l =
      let enc = public_key_bytes x (x.public_key ephemeral) in
      let own = public_key_bytes x (x.public_key identity) in
      let shared = x.diffie_hellman ephemeral (x.public_key identity) in
      let (key, derived, size) = derive_key_total x h shared enc own kdf_info in
      let (cipher, built) = h.cipher_law key size in
      let (body, sealed, longer, opened) =
        h.aead_law cipher zero_nonce file_key (associated_data enc own) refl (omega arith) in
      let parsed = parse_v1 (x.public_key ephemeral) body (omega arith) in
      (
        record { tag = stanza_tag; args = x.base64_encode enc ∷ []; body = body },
        unfold wrap_file_key public_key_bytes in
            wrap_step (x.public_key identity) enc shared key file_key body cipher derived built
              (h.compressed_length (x.public_key ephemeral)) sealed,
        unfold validate_stanza bytes_eq in rw parsed,
        unfold unwrap_file_key bytes_eq in
            rw (parsed, h.diffie_hellman_law identity ephemeral)
              (decrypt_step (x.public_key identity) enc shared key file_key body cipher derived
                built (x.public_key ephemeral) l opened),
      )
