-- ===== src/Recipient/Tag.antt =====
-- crates/core/src/recipient/tag.rs: native tagged recipients, RFC 9180 base mode.
use age_plugin_phone.Base.{
  ℕ, ◌/◌, ◌%◌, Bool, false, ◌&&◌, List, [], ◌∷◌, ◌++◌, Bytes, codes, length, take, bytes_eq, ◌==◌,
  Result, ok, err, ok_or, ensure, ◌>>=◌, ◌>>◌,
}
use age_plugin_phone.Crypto.{Crypto}
use age_plugin_phone.Recipient.{
  Error, TaggedStanza, invalid_stanza_arguments, non_canonical_recipient, wrong_recipient_hrp,
  recipient_encoding, unknown_stanza_type, invalid_body_length, invalid_public_key, key_derivation,
  authentication, file_key_bytes, has_version, decode_base64_exact, public_key_bytes,
  from_public_key_bytes,
}

abbrev pub tag_stanza_tag : Bytes
tag_stanza_tag = codes "p256tag"

abbrev pub tag_hrp : Bytes
tag_hrp = codes "age1tag"

abbrev pub tag_info : Bytes
tag_info = codes "age-encryption.org/p256tag"

abbrev pub kem : Bytes
kem = codes "KEM" ++ (0 ∷ 16 ∷ [])

abbrev pub suite : Bytes
suite = codes "HPKE" ++ (0 ∷ 16 ∷ 0 ∷ 1 ∷ 0 ∷ 3 ∷ [])

abbrev pub hpke_label : Bytes
hpke_label = codes "HPKE-v1"

module _ (x : Crypto) where
  open x use {
    Point, Scalar, from_sec1_bytes, to_encoded_point, public_key, diffie_hellman, sha256,
    hkdf_extract, hkdf_expand, cipher_from_slice, encrypt, decrypt, base64_encode, bech32_encode,
    bech32_decode, from_base32,
  }

  unfoldable pub tag_recipient : Point → Result Error Bytes
  tag_recipient recipient =
      ok_or (bech32_encode tag_hrp (public_key_bytes x recipient)) recipient_encoding

  unfoldable pub tag_parse_recipient : Bytes → Result Error Point
  tag_parse_recipient text = do
    (hrp, groups, bech32) ← ok_or (bech32_decode text) non_canonical_recipient
    ensure (bytes_eq hrp tag_hrp && bech32) wrong_recipient_hrp
    bytes ← ok_or (from_base32 groups) non_canonical_recipient
    key ← from_public_key_bytes x bytes
    canonical ← tag_recipient key
    ensure (bytes_eq canonical text) non_canonical_recipient
    ok key

  -- The checks of `parse` behind the pattern `[tag, enc]`.
  unfoldable pub tag_parse_pair : Bytes → Bytes → Bytes → Result Error Point
  tag_parse_pair tag enc body = do
    _ ← decode_base64_exact x tag 4
    point ← decode_base64_exact x enc 65
    ensure (length body == 32) invalid_body_length
    ensure (has_version 4 point) invalid_public_key
    key ← ok_or (from_sec1_bytes point) invalid_public_key
    ensure (bytes_eq (to_encoded_point key false) point) invalid_public_key
    ok key

  unfoldable pub tag_parse_args : List Bytes → Bytes → Result Error Point
  tag_parse_args (tag ∷ enc ∷ []) body = tag_parse_pair tag enc body
  tag_parse_args _ body = err invalid_stanza_arguments

  -- `tag::parse`
  unfoldable pub tag_parse : TaggedStanza → Result Error Point
  tag_parse stanza = do
    ensure (bytes_eq stanza.tag tag_stanza_tag) unknown_stanza_type
    tag_parse_args stanza.args stanza.body

  unfoldable pub selection : Point → Bytes → Bytes
  selection recipient enc =
      take 4 (hkdf_extract tag_info (enc ++ take 4 (sha256 (public_key_bytes x recipient))))

  -- `stanza.args[0]`, which `parse` has shown to be there.
  abbrev first_argument : List Bytes → Bytes
  first_argument [] = []
  first_argument (a ∷ args) = a

  -- `tag::matches`
  unfoldable pub tag_matches : Point → TaggedStanza → Result Error Bool
  tag_matches recipient stanza = do
    key ← tag_parse stanza
    ok (
        bytes_eq (base64_encode (selection recipient (to_encoded_point key false)))
          (first_argument stanza.args))

  unfoldable pub extract : Bytes → Bytes → Bytes → Bytes → Bytes
  extract id salt label ikm = hkdf_extract salt (hpke_label ++ (id ++ (label ++ ikm)))

  unfoldable pub expand : Bytes → Bytes → Bytes → Bytes → ℕ → Result Error Bytes
  expand id prk label info len =
      let input : Bytes =
        (len / 256 % 256) ∷ (len % 256) ∷ (hpke_label ++ (id ++ (label ++ info))) in
      ok_or (hkdf_expand prk input len) key_derivation

  -- The key and the base nonce.
  unfoldable pub schedule : Bytes → Bytes → Point → Result Error (Bytes × Bytes)
  schedule dh enc recipient = do
    let eae = extract kem [] (codes "eae_prk") dh
    shared ← expand kem eae (codes "shared_secret") (enc ++ to_encoded_point recipient false) 32
    let psk = extract suite [] (codes "psk_id_hash") []
    let info = extract suite [] (codes "info_hash") tag_info
    let context : Bytes = 0 ∷ (psk ++ info)
    let secret = extract suite shared (codes "secret") []
    key ← expand suite secret (codes "key") context 32
    nonce ← expand suite secret (codes "base_nonce") context 12
    ok (key, nonce)

  -- `tag::unwrap`
  unfoldable pub tag_unwrap : Scalar → TaggedStanza → Result Error Bytes
  tag_unwrap identity stanza = do
    enc ← tag_parse stanza
    let recipient = public_key identity
    matching ← tag_matches recipient stanza
    ensure matching authentication
    (key, nonce) ← schedule (diffie_hellman identity enc) (to_encoded_point enc false) recipient
    cipher ← ok_or (cipher_from_slice key) key_derivation
    plaintext ← ok_or (decrypt cipher nonce stanza.body []) authentication
    ensure (length plaintext == file_key_bytes) authentication
    ok plaintext

  -- `tag::wrap_with_ephemeral`
  unfoldable pub tag_wrap : Point → Bytes → Scalar → Result Error TaggedStanza
  tag_wrap recipient file_key ephemeral = do
    let enc = to_encoded_point (public_key ephemeral) false
    (key, nonce) ← schedule (diffie_hellman ephemeral recipient) enc recipient
    cipher ← ok_or (cipher_from_slice key) key_derivation
    body ← ok_or (encrypt cipher nonce file_key []) authentication
    ok (record {
      tag = tag_stanza_tag;
      args = base64_encode (selection recipient enc) ∷ base64_encode enc ∷ [];
      body = body;
    })
