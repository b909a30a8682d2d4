-- ===== src/Recipient/Selection.antt =====
-- Version 2 stanzas: the paired desktop recognises them and the phone identity unwraps them.
use age_plugin_phone.Base.{
  ◌≡◌, refl, ap, ◌∙◌, true, some, [], ◌∷◌, arith, Bytes, length, bytes_eq, bytes_eq_refl, ok,
}
use age_plugin_phone.Crypto.{Crypto, IsCrypto}
use age_plugin_phone.Recipient.{
  TaggedStanza, PairedRecipient, P256KeyAgreement, public_key_bytes, derive_key, stanza_tag_v2,
  zero_nonce, file_key_kdf_info_v2, selection_kdf_info_v2, file_key_associated_data_v2,
  selection_associated_data,
}
use age_plugin_phone.Recipient.Keys.{from_public_key_bytes-public_key_bytes, derive_key_total}
use age_plugin_phone.Recipient.Stanza.{ParsedStanza, v2, select_argument, parse_ephemeral, parse}
use age_plugin_phone.Recipient.Wrap.{wrap_v2_from_shared_secrets, wrap_file_key_v2}
use age_plugin_phone.Recipient.Open.{
  validate_stanza, decrypt_with_shared_secret, unwrap_file_key, kdf_parameters, selector_matches,
  select_version, matches_stanza_v2,
}

-- What `P256KeyAgreement` asks of an implementation that keeps the scalar `s`.
pub record IsAgreement (x : Crypto) (s : x.Scalar) (a : P256KeyAgreement) : Type 0 where
  pub public_law : a.public_key ≡ ok (public_key_bytes x (x.public_key s))
  pub agree_law : (p : x.Point) → a.agree (public_key_bytes x p) ≡ ok (x.diffie_hellman s p)

module _ (x : Crypto) (h : IsCrypto x) where
  abbrev stanza_of : x.Point → Bytes → Bytes → TaggedStanza
  stanza_of p selector body = record {
    tag = stanza_tag_v2;
    args = x.base64_encode (public_key_bytes x p) ∷ x.base64_encode selector ∷ [];
    body = body;
  }

  abbrev parsed_of : x.Point → Bytes → Bytes → ParsedStanza x.Point
  parsed_of p selector body = record {
    version = v2;
    ephemeral = p;
    ephemeral_bytes = public_key_bytes x p;
    selection = some selector;
    body = body;
  }

  parse_v2 :
      (p : x.Point) (selector body : Bytes)
      → length selector ≡ 32
      → length body ≡ 32
      → parse x (stanza_of p selector body) ≡ ok (parsed_of p selector body)
  unfolding parse select_argument parse_ephemeral public_key_bytes bytes_eq
  parse_v2 p selector body k l = ground (
    arith,
    h.base64_law (x.to_encoded_point p true),
    bytes_eq_refl (x.base64_encode (x.to_encoded_point p true)),
    from_public_key_bytes-public_key_bytes x h p,
    h.compressed_length p,
    h.base64_law selector,
    bytes_eq_refl (x.base64_encode selector),
  )

  module _ (r : PairedRecipient x.Point) (p : x.Point)
      (phone_shared desktop_shared key selection_key file_key body selector : Bytes)
      (cipher selection_cipher : x.Cipher)
      (derived : derive_key x phone_shared
          (public_key_bytes x p)
          (public_key_bytes x r.phone_identity)
          file_key_kdf_info_v2
        ≡ ok key)
      (built : x.cipher_from_slice key ≡ some cipher)
      (selection_derived : derive_key x desktop_shared
          (public_key_bytes x p)
          (public_key_bytes x r.desktop_selection)
          selection_kdf_info_v2
        ≡ ok selection_key)
      (selection_built : x.cipher_from_slice selection_key ≡ some selection_cipher) where
    abbrev file_key_aad : Bytes
    file_key_aad =
        file_key_associated_data_v2 (public_key_bytes x p) (public_key_bytes x r.phone_identity)

    abbrev selection_aad : Bytes
    selection_aad =
        selection_associated_data (public_key_bytes x p) (public_key_bytes x r.phone_identity)
          (public_key_bytes x r.desktop_selection) body

    wrap_step :
        length (public_key_bytes x p) ≡ 33
        → x.encrypt cipher zero_nonce file_key file_key_aad ≡ some body
        → x.encrypt selection_cipher zero_nonce r.identity_id selection_aad ≡ some selector
        → wrap_v2_from_shared_secrets x r
            (public_key_bytes x p)
            phone_shared
            desktop_shared
            file_key
          ≡ ok (stanza_of p selector body)
    unfolding wrap_v2_from_shared_secrets
    wrap_step l sealed selection_sealed = ground arith

    decrypt_step :
        length file_key ≡ 16
        → x.decrypt cipher zero_nonce body file_key_aad ≡ some file_key
        → decrypt_with_shared_secret x r.phone_identity (parsed_of p selector body) phone_shared
          ≡ ok file_key
    unfolding decrypt_with_shared_secret kdf_parameters
    decrypt_step l opened = ground arith

    select_step :
        (desktop : P256KeyAgreement)
        → length r.identity_id ≡ 16
        → desktop.agree (public_key_bytes x p) ≡ ok desktop_shared
        → x.decrypt selection_cipher zero_nonce selector selection_aad ≡ some r.identity_id
        → select_version x r desktop (parsed_of p selector body) v2 ≡ ok true
    unfolding select_version selector_matches
    select_step desktop l agreed opened = ground (arith, bytes_eq_refl r.identity_id)

  -- Wrapping a 16-byte file key for a pairing with a 16-byte identifier gives a stanza that the desktop with the selection scalar recognises as
  -- its own and that the phone identity unwraps to the file key.
  pub wrap-matches-unwrap :
      (identity selection ephemeral : x.Scalar) (desktop : P256KeyAgreement) (id file_key : Bytes)
      → IsAgreement x selection desktop
      → length id ≡ 16
      → length file_key ≡ 16
      → let r : PairedRecipient x.Point = record {
        phone_identity = x.public_key identity;
        desktop_selection = x.public_key selection;
        identity_id = id;
      } in
        (stanza : TaggedStanza) × (wrap_file_key_v2 x r file_key ephemeral ≡ ok stanza)
        × (validate_stanza x stanza ≡ ok tt)
        × (matches_stanza_v2 x r desktop stanza ≡ ok true)
        × (unwrap_file_key x identity stanza ≡ ok file_key)
  wrap-matches-unwrap identity selection ephemeral desktop id file_key a k l =
      let r : PairedRecipient x.Point = record {
        phone_identity = x.public_key identity;
        desktop_selection = x.public_key selection;
        identity_id = id;
      } in
      let p = x.public_key ephemeral in
      let enc = public_key_bytes x p in
      let phone = public_key_bytes x (x.public_key identity) in
      let own = public_key_bytes x (x.public_key selection) in
      let ps = x.diffie_hellman ephemeral (x.public_key identity) in
      let ds = x.diffie_hellman ephemeral (x.public_key selection) in
      let (key, derived, size) = derive_key_total x h ps enc phone file_key_kdf_info_v2 in
      let (skey, sderived, ssize) = derive_key_total x h ds enc own selection_kdf_info_v2 in
      let (cipher, built) = h.cipher_law key size in
      let (scipher, sbuilt) = h.cipher_law skey ssize in
      let (body, sealed, longer, opened) =
        h.aead_law cipher zero_nonce file_key (file_key_associated_data_v2 enc phone) refl
          (omega arith) in
      let (sel, ssealed, slonger, sopened) =
        h.aead_law scipher zero_nonce id (selection_associated_data enc phone own body) refl
          (omega arith) in
      let parsed = parse_v2 p sel body (omega arith) (omega arith) in
      let agreed : desktop.agree enc ≡ ok ds =
        a.agree_law p ∙ ap ok (h.diffie_hellman_law selection ephemeral) in
      (
        stanza_of p sel body,
        unfold wrap_file_key_v2 public_key_bytes in
            wrap_step r p ps ds key skey file_key body sel cipher scipher derived built sderived
              sbuilt (h.compressed_length p) sealed ssealed,
        unfold validate_stanza bytes_eq in rw parsed,
        unfold matches_stanza_v2 in
            simp (a.public_law, bytes_eq_refl own, parsed)
              (select_step r p ps ds key skey file_key body sel cipher scipher derived built
                sderived sbuilt desktop k agreed sopened),
        unfold unwrap_file_key bytes_eq in
            rw (parsed, h.diffie_hellman_law identity ephemeral)
              (decrypt_step r p ps ds key skey file_key body sel cipher scipher derived built
                sderived sbuilt l opened),
      )
