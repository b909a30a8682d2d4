-- ===== src/Recipient/TagRoundTrip.antt =====
-- crates/core/src/recipient/tag.rs: a native tagged stanza is recognised and unwrapped.
use age_plugin_phone.Base.{
  ℕ, ◌≡◌, ap, true, false, [], ◌∷◌, ◌++◌, arith, Bytes, codes, length, bytes_eq, bytes_eq_refl, ok,
}
use age_plugin_phone.Base.{take, length-take, ◌≤◌, ◌/◌, ◌%◌}
use age_plugin_phone.Crypto.{Crypto, IsCrypto}
use age_plugin_phone.Recipient.{TaggedStanza, public_key_bytes, has_version}
use age_plugin_phone.Recipient.Keys.{decode_base64_exact_lem}
use age_plugin_phone.Recipient.Tag.{
  hpke_label, tag_stanza_tag, kem, suite, tag_parse, tag_parse_args, tag_parse_pair, selection,
  tag_matches, extract, expand, schedule, tag_unwrap, tag_wrap,
}
use age_plugin_phone.Recipient.Open.{validate_stanza, unwrap_file_key}

module _ (x : Crypto) (h : IsCrypto x) where
  expand_total :
      (id prk label info : Bytes) (n : ℕ)
      → length prk ≡ 32
      → n ≤ 32
      → (out : Bytes) × (expand x id prk label info n ≡ ok out) × (length out ≡ n)
  unfolding expand
  expand_total id prk label info n l k =
      let input : Bytes = (n / 256 % 256) ∷ (n % 256) ∷ (hpke_label ++ (id ++ (label ++ info))) in
      let (out, e, size) = h.hkdf_expand_law prk input n l (omega arith) in (out, rw e, size)

  -- The key schedule always gives a key of 32 bytes and a nonce of 12.
  schedule_total :
      (dh enc : Bytes) (p : x.Point)
      → (key : Bytes) × (nonce : Bytes) × (schedule x dh enc p ≡ ok (key, nonce))
        × (length key ≡ 32)
        × (length nonce ≡ 12)
  unfolding schedule extract
  schedule_total dh enc p =
      let (shared, e, l) =
        expand_total kem (extract x kem [] (codes "eae_prk") dh) (codes "shared_secret")
          (enc ++ x.to_encoded_point p false) 32 (h.hkdf_extract_length _ _) (omega arith) in
      let secret = extract x suite shared (codes "secret") [] in
      let context : Bytes =
        0
        ∷ (extract x suite [] (codes "psk_id_hash") []
            ++ extract x suite [] (codes "info_hash") (codes "age-encryption.org/p256tag")) in
      let (key, ek, lk) =
        expand_total suite secret (codes "key") context 32 (h.hkdf_extract_length _ _)
          (omega arith) in
      let (nonce, en, ln) =
        expand_total suite secret (codes "base_nonce") context 12 (h.hkdf_extract_length _ _)
          (omega arith) in
      (key, nonce, rw (e, ek, en), lk, ln)

  has_version_lem : (bs : Bytes) → ((rest : Bytes) × (bs ≡ 4 ∷ rest)) → has_version 4 bs ≡ true
  unfolding has_version
  has_version_lem bs (rest, e) = rw e

  abbrev stanza_of : x.Point → x.Point → Bytes → TaggedStanza
  stanza_of recipient p body = record {
    tag = tag_stanza_tag;
    args =
        x.base64_encode (selection x recipient (x.to_encoded_point p false))
        ∷ x.base64_encode (x.to_encoded_point p false)
        ∷ [];
    body = body;
  }

  length-selection : (p : x.Point) (enc : Bytes) → length (selection x p enc) ≡ 4
  unfolding selection
  length-selection p enc = omega (
    arith,
    length-take 4 (
        x.hkdf_extract (codes "age-encryption.org/p256tag")
          (enc ++ take 4 (x.sha256 (public_key_bytes x p)))),
    h.hkdf_extract_length (codes "age-encryption.org/p256tag")
        (enc ++ take 4 (x.sha256 (public_key_bytes x p))),
  )

  parse_tagged :
      (recipient p : x.Point) (body : Bytes)
      → length body ≡ 32
      → tag_parse x (stanza_of recipient p body) ≡ ok p
  unfolding tag_parse tag_parse_args tag_parse_pair bytes_eq
  parse_tagged recipient p body l = ground (
    arith,
    decode_base64_exact_lem x h (selection x recipient (x.to_encoded_point p false)) 4
        (length-selection recipient (x.to_encoded_point p false)),
    decode_base64_exact_lem x h (x.to_encoded_point p false) 65 (h.uncompressed_length p),
    has_version_lem (x.to_encoded_point p false) (h.uncompressed_tag p),
    h.from_sec1_law p false,
    bytes_eq_refl (x.to_encoded_point p false),
  )

  matches_tagged :
      (recipient p : x.Point) (body : Bytes)
      → length body ≡ 32
      → tag_matches x recipient (stanza_of recipient p body) ≡ ok true
  unfolding tag_matches
  matches_tagged recipient p body l =
      rw (parse_tagged recipient p body l) (
        ap ok
          (bytes_eq_refl (x.base64_encode (selection x recipient (x.to_encoded_point p false)))))

  -- A stanza that was wrapped for an identity's public key carries its selector, is well formed, and
  -- is unwrapped by the identity to the file key.
  pub tag_wrap-matches-unwrap :
      (identity ephemeral : x.Scalar) (file_key : Bytes)
      → length file_key ≡ 16
      → (stanza : TaggedStanza) × (tag_wrap x (x.public_key identity) file_key ephemeral
          ≡ ok stanza)
        × (validate_stanza x stanza ≡ ok tt)
        × (tag_matches x (x.public_key identity) stanza ≡ ok true)
        × (unwrap_file_key x identity stanza ≡ ok file_key)
  tag_wrap-matches-unwrap identity ephemeral file_key l =
      let own = x.public_key identity in
      let p = x.public_key ephemeral in
      let enc = x.to_encoded_point p false in
      let (key, nonce, scheduled, lk, ln) =
        schedule_total (x.diffie_hellman ephemeral own) enc own in
      let (cipher, built) = h.cipher_law key lk in
      let (body, sealed, longer, opened) = h.aead_law cipher nonce file_key [] ln (omega arith) in
      let size : length body ≡ 32 = omega arith in
      let parsed = parse_tagged own p body size in
      let matching = matches_tagged own p body size in
      (
        stanza_of own p body,
        unfold tag_wrap in rw (scheduled, built, sealed),
        unfold validate_stanza bytes_eq in rw parsed,
        matching,
        unfold unwrap_file_key tag_unwrap bytes_eq in
            rw (
              parsed,
              matching,
              h.diffie_hellman_law identity ephemeral,
              scheduled,
              built,
              opened,
              l,
            ),
      )
