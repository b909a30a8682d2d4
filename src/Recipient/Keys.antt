-- ===== src/Recipient/Keys.antt =====
-- Public keys and derived keys: what the parsers of crates/core/src/recipient/mod.rs accept.
use age_plugin_phone.Base.{
  ℕ, ◌≡◌, ◌⊎◌, inl, inr, true, ◌∷◌, ◌++◌, arith, Bytes, length, length-append, split_fields,
  bytes_eq_sound, bytes_eq_refl, ok, Result-cases,
}
use age_plugin_phone.Crypto.{Crypto, IsCrypto}
use age_plugin_phone.Recipient.{
  PairedRecipient, has_compressed_tag, public_key_bytes, from_public_key_bytes, recipient_to_string,
  parse_recipient, plugin_bytes, from_plugin_bytes, from_public_fields, paired_to_string,
  parse_paired, derive_key, decode_base64_exact,
}
use age_plugin_phone.Recipient.Tag.{tag_recipient, tag_parse_recipient}

module _ (x : Crypto) where
  pub has_compressed_tag_lem :
      (bs : Bytes)
      → ((t : ℕ) × (rest : Bytes) × (bs ≡ t ∷ rest) × ((t ≡ 2) ⊎ (t ≡ 3)))
      → has_compressed_tag bs ≡ true
  unfolding has_compressed_tag
  has_compressed_tag_lem bs (t, rest, e, h) = rw e (ground arith)

  -- Encoding a point and parsing the bytes gives the point.
  pub from_public_key_bytes-public_key_bytes :
      IsCrypto x → (p : x.Point) → from_public_key_bytes x (public_key_bytes x p) ≡ ok p
  unfolding from_public_key_bytes public_key_bytes
  from_public_key_bytes-public_key_bytes h p = ground (
    arith,
    h.compressed_length p,
    has_compressed_tag_lem (x.to_encoded_point p true) (h.compressed_tag p),
    h.from_sec1_law p true,
    bytes_eq_refl (x.to_encoded_point p true),
  )

  -- What is accepted is the canonical encoding of the point that is returned.
  pub from_public_key_bytes_canonical :
      (bs : Bytes) (p : x.Point)
      → from_public_key_bytes x bs ≡ ok p
      → (public_key_bytes x p ≡ bs) × (length bs ≡ 33)
  unfolding from_public_key_bytes public_key_bytes
  from_public_key_bytes_canonical bs p e =
      ground (arith, bytes_eq_sound (x.to_encoded_point p true) bs)

  pub derive_key_total :
      IsCrypto x
      → (shared ephemeral recipient info : Bytes)
      → (key : Bytes) × (derive_key x shared ephemeral recipient info ≡ ok key) × (length key ≡ 32)
  unfolding derive_key
  derive_key_total h shared ephemeral recipient info =
      let prk = x.hkdf_extract (ephemeral ++ recipient) shared in
      let (key, e, l) =
        h.hkdf_expand_law prk info 32 (h.hkdf_extract_length (ephemeral ++ recipient) shared)
          (omega arith) in
      (key, rw e, l)

  pub decode_base64_exact_lem :
      IsCrypto x
      → (bs : Bytes) (n : ℕ) → length bs ≡ n
      → decode_base64_exact x (x.base64_encode bs) n ≡ ok bs
  unfolding decode_base64_exact
  decode_base64_exact_lem h bs n l =
      ground (arith, h.base64_law bs, bytes_eq_refl (x.base64_encode bs))

  -- A text that parses is the text that the recipient prints: no second spelling is accepted.
  pub parse_recipient_canonical :
      (text : Bytes) (p : x.Point)
      → parse_recipient x text ≡ ok p
      → recipient_to_string x p ≡ ok text
  unfolding parse_recipient
  parse_recipient_canonical text p e = elim (Result-cases (recipient_to_string x p)) [
    | inl (c, q) ↦ ground (arith, q, bytes_eq_sound c text)
    | inr (f, q) ↦ ground (arith, q)
  ]

  pub tag_parse_recipient_canonical :
      (text : Bytes) (p : x.Point) → tag_parse_recipient x text ≡ ok p → tag_recipient x p ≡ ok text
  unfolding tag_parse_recipient
  tag_parse_recipient_canonical text p e = elim (Result-cases (tag_recipient x p)) [
    | inl (c, q) ↦ ground (arith, q, bytes_eq_sound c text)
    | inr (f, q) ↦ ground (arith, q)
  ]

  pub parse_paired_canonical :
      (text : Bytes) (r : PairedRecipient x.Point)
      → parse_paired x text ≡ ok r
      → paired_to_string x r ≡ ok text
  unfolding parse_paired
  parse_paired_canonical text r e = elim (Result-cases (paired_to_string x r)) [
    | inl (c, q) ↦ ground (arith, q, bytes_eq_sound c text)
    | inr (f, q) ↦ ground (arith, q)
  ]

  -- `take` and `drop` over two fields of known lengths and a rest.
  pub from_public_fields_lem :
      IsCrypto x
      → (r : PairedRecipient x.Point)
      → from_public_fields x
          (public_key_bytes x r.phone_identity)
          (public_key_bytes x r.desktop_selection)
          r.identity_id
        ≡ ok r
  unfolding from_public_fields
  from_public_fields_lem h r = ground (
    arith,
    from_public_key_bytes-public_key_bytes h r.phone_identity,
    from_public_key_bytes-public_key_bytes h r.desktop_selection,
  )

  -- A paired recipient with a 16-byte identifier is read back from its plugin bytes.
  pub from_plugin_bytes-plugin_bytes :
      IsCrypto x
      → (r : PairedRecipient x.Point) → length r.identity_id ≡ 16
      → from_plugin_bytes x (plugin_bytes x r) ≡ ok r
  unfolding from_plugin_bytes plugin_bytes public_key_bytes
  from_plugin_bytes-plugin_bytes h r l =
      let phone = x.to_encoded_point r.phone_identity true in
      let desktop = x.to_encoded_point r.desktop_selection true in
      let rest = desktop ++ r.identity_id in
      let lp = h.compressed_length r.phone_identity in
      let ld = h.compressed_length r.desktop_selection in
      let size : length (phone ++ rest) ≡ 82 =
        omega (arith, length-append phone rest, length-append desktop r.identity_id) in
      let (e1, e2, e3) = split_fields 33 phone desktop r.identity_id lp ld in
      rw (size, e1, e2, e3, l) (from_public_fields_lem h r)
