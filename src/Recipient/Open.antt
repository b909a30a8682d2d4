-- ===== src/Recipient/Open.antt =====
-- crates/core/src/recipient/mod.rs: validating, selecting and unwrapping a stanza.
use age_plugin_phone.Base.{
  Bool, false, ◌&&◌, Option, some, none, Bytes, length, bytes_eq, ◌==◌, if◌then◌else◌, Result, ok,
  ok_or, ensure, ◌>>=◌, ◌>>◌,
}
use age_plugin_phone.Crypto.{Crypto}
use age_plugin_phone.Recipient.{
  Error, TaggedStanza, PairedRecipient, P256KeyAgreement, key_derivation, authentication,
  wrong_selection_key, kdf_info, file_key_kdf_info_v2, selection_kdf_info_v2, zero_nonce,
  file_key_bytes, id_bytes, derive_key, associated_data, file_key_associated_data_v2,
  selection_associated_data, public_key_bytes,
}
use age_plugin_phone.Recipient.Stanza
use age_plugin_phone.Recipient.Stanza.{StanzaVersion, v1, v2, ParsedStanza}
use age_plugin_phone.Recipient.Tag.{tag_stanza_tag, tag_parse, tag_unwrap}

-- The `(info, aad)` of a version.
unfoldable pub kdf_parameters : StanzaVersion → Bytes → Bytes → Bytes × Bytes
kdf_parameters v1 ephemeral recipient = (kdf_info, associated_data ephemeral recipient)
kdf_parameters v2 ephemeral recipient =
    (file_key_kdf_info_v2, file_key_associated_data_v2 ephemeral recipient)

module _ (x : Crypto) where
  open x use {Point, Scalar, public_key, diffie_hellman, cipher_from_slice, decrypt}

  unfoldable pub validate_stanza : TaggedStanza → Result Error (Unit {0})
  validate_stanza stanza =
      if bytes_eq stanza.tag tag_stanza_tag
      then (do _ ← tag_parse x stanza; ok tt)
      else (do _ ← Stanza.parse x stanza; ok tt)

  unfoldable pub decrypt_with_shared_secret :
      Point → ParsedStanza Point → Bytes → Result Error Bytes
  decrypt_with_shared_secret recipient stanza shared = do
    let recipient_bytes = public_key_bytes x recipient
    let parameters = kdf_parameters stanza.version stanza.ephemeral_bytes recipient_bytes
    wrap_key ← derive_key x shared stanza.ephemeral_bytes recipient_bytes parameters.0
    cipher ← ok_or (cipher_from_slice wrap_key) key_derivation
    plaintext ← ok_or (decrypt cipher zero_nonce stanza.body parameters.1) authentication
    ensure (length plaintext == file_key_bytes) authentication
    ok plaintext

  unfoldable pub unwrap_file_key : Scalar → TaggedStanza → Result Error Bytes
  unwrap_file_key identity stanza =
      if bytes_eq stanza.tag tag_stanza_tag then tag_unwrap x identity stanza else (do
        parsed ← Stanza.parse x stanza
        decrypt_with_shared_secret (public_key identity) parsed
            (diffie_hellman identity parsed.ephemeral))

  -- Whether the selector of a version 2 stanza decrypts to the identity of this pairing.
  unfoldable pub selector_matches :
      PairedRecipient Point → ParsedStanza Point → Option Bytes → Bytes → Result Error Bool
  selector_matches recipient parsed none selection_key = ok false
  selector_matches recipient parsed (some selector) selection_key = do
    let desktop_bytes = public_key_bytes x recipient.desktop_selection
    let phone_bytes = public_key_bytes x recipient.phone_identity
    let aad = selection_associated_data parsed.ephemeral_bytes phone_bytes desktop_bytes parsed.body
    cipher ← ok_or (cipher_from_slice selection_key) key_derivation
    ok (elim (decrypt cipher zero_nonce selector aad) [
      | none ↦ false
      | some plaintext ↦ length plaintext == id_bytes && bytes_eq plaintext recipient.identity_id
    ])

  unfoldable pub select_version :
      PairedRecipient Point
      → P256KeyAgreement
      → ParsedStanza Point
      → StanzaVersion
      → Result Error Bool
  select_version recipient desktop parsed v1 = ok false
  select_version recipient desktop parsed v2 = do
    shared ← desktop.agree parsed.ephemeral_bytes
    let desktop_bytes = public_key_bytes x recipient.desktop_selection
    selection_key ← derive_key x shared parsed.ephemeral_bytes desktop_bytes selection_kdf_info_v2
    selector_matches recipient parsed parsed.selection selection_key

  unfoldable pub matches_stanza_v2 :
      PairedRecipient Point → P256KeyAgreement → TaggedStanza → Result Error Bool
  matches_stanza_v2 recipient desktop stanza = do
    desktop_public ← desktop.public_key
    ensure (bytes_eq desktop_public (public_key_bytes x recipient.desktop_selection))
        wrong_selection_key
    parsed ← Stanza.parse x stanza
    select_version recipient desktop parsed parsed.version
