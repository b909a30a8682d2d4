-- ===== src/Recipient/Wrap.antt =====
-- crates/core/src/recipient/mod.rs: wrapping a file key for a recipient.
-- The ephemeral scalar is an argument: drawn from the generator in `wrap_file_key` and
-- `wrap_file_key_v2`, given by the caller in their deterministic variants.
use age_plugin_phone.Base.{
  true, [], ◌∷◌, Bytes, length, ◌==◌, Result, ok, ok_or, ensure, ◌>>=◌, ◌>>◌,
}
use age_plugin_phone.Crypto.{Crypto}
use age_plugin_phone.Recipient.{
  Error, TaggedStanza, PairedRecipient, stanza_tag, stanza_tag_v2, invalid_public_key,
  key_derivation, authentication, compressed_point_bytes, kdf_info, file_key_kdf_info_v2,
  selection_kdf_info_v2, zero_nonce, derive_key, associated_data, file_key_associated_data_v2,
  selection_associated_data, public_key_bytes,
}

module _ (x : Crypto) where
  open x use {
    Point, Scalar, to_encoded_point, public_key, diffie_hellman, cipher_from_slice, encrypt,
    base64_encode,
  }

  unfoldable pub wrap_from_shared_secret : Point → Bytes → Bytes → Bytes → Result Error TaggedStanza
  wrap_from_shared_secret recipient ephemeral_bytes shared file_key = do
    ensure (length ephemeral_bytes == compressed_point_bytes) invalid_public_key
    let recipient_bytes = public_key_bytes x recipient
    wrap_key ← derive_key x shared ephemeral_bytes recipient_bytes kdf_info
    cipher ← ok_or (cipher_from_slice wrap_key) key_derivation
    body ←
        ok_or (encrypt cipher zero_nonce file_key (associated_data ephemeral_bytes recipient_bytes))
          authentication
    ok (record { tag = stanza_tag; args = base64_encode ephemeral_bytes ∷ []; body = body })

  unfoldable pub wrap_v2_from_shared_secrets :
      PairedRecipient Point → Bytes → Bytes → Bytes → Bytes → Result Error TaggedStanza
  wrap_v2_from_shared_secrets recipient ephemeral_bytes phone_shared desktop_shared file_key = do
    ensure (length ephemeral_bytes == compressed_point_bytes) invalid_public_key
    let phone_bytes = public_key_bytes x recipient.phone_identity
    let desktop_bytes = public_key_bytes x recipient.desktop_selection
    file_key_key ← derive_key x phone_shared ephemeral_bytes phone_bytes file_key_kdf_info_v2
    cipher ← ok_or (cipher_from_slice file_key_key) key_derivation
    body ←
        ok_or
          (encrypt cipher zero_nonce file_key
            (file_key_associated_data_v2 ephemeral_bytes phone_bytes))
          authentication
    selection_key ← derive_key x desktop_shared ephemeral_bytes desktop_bytes selection_kdf_info_v2
    selection_cipher ← ok_or (cipher_from_slice selection_key) key_derivation
    selection ←
        ok_or
          (encrypt selection_cipher zero_nonce recipient.identity_id
            (selection_associated_data ephemeral_bytes phone_bytes desktop_bytes body))
          authentication
    ok (record {
      tag = stanza_tag_v2;
      args = base64_encode ephemeral_bytes ∷ base64_encode selection ∷ [];
      body = body;
    })

  unfoldable pub wrap_file_key : Point → Bytes → Scalar → Result Error TaggedStanza
  wrap_file_key recipient file_key ephemeral =
      wrap_from_shared_secret recipient (to_encoded_point (public_key ephemeral) true)
        (diffie_hellman ephemeral recipient) file_key

  unfoldable pub wrap_file_key_v2 :
      PairedRecipient Point → Bytes → Scalar → Result Error TaggedStanza
  wrap_file_key_v2 recipient file_key ephemeral =
      wrap_v2_from_shared_secrets recipient (to_encoded_point (public_key ephemeral) true)
        (diffie_hellman ephemeral recipient.phone_identity)
        (diffie_hellman ephemeral recipient.desktop_selection) file_key
