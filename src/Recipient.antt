-- ===== src/Recipient.antt =====
-- crates/core/src/recipient/mod.rs: errors, stanzas, recipients and what both directions derive.
-- A `String` is its bytes; `Recipient` wraps a point and is the point.
pub mod Stanza
pub mod Wrap
pub mod Tag
pub mod Open
pub mod Keys
pub mod RoundTrip
pub mod Selection
pub mod TagRoundTrip
use age_plugin_phone.Base.{
  ℕ, ◌+◌, ◌≡◌, Bool, true, false, not, ◌&&◌, ◌||◌, Option, some, none, List, [], ◌∷◌, ◌++◌, map,
  Bytes, codes, length, take, drop, bytes_eq, leb, ◌==◌, if◌then◌else◌, Result, ok, err, ok_or,
  ensure, refuse, ◌>>=◌, ◌>>◌,
}
use age_plugin_phone.Crypto.{Crypto}

pub data Error : Type 0 where
  non_canonical_recipient wrong_recipient_hrp unsupported_recipient_version : Error
  invalid_recipient_length invalid_public_key unknown_stanza_type : Error
  invalid_stanza_arguments invalid_ephemeral_encoding invalid_body_length : Error
  key_derivation authentication recipient_encoding wrong_selection_key key_agreement : Error

pub record TaggedStanza : Type 0 where
  pub tag : Bytes
  pub args : List Bytes
  pub body : Bytes

pub record PairedRecipient (Point : Type 0) : Type 0 where
  pub phone_identity : Point
  pub desktop_selection : Point
  pub identity_id : Bytes

-- The trait `P256KeyAgreement`, implemented by platform keys.
pub record P256KeyAgreement : Type 0 where
  pub public_key : Result Error Bytes
  pub agree : Bytes → Result Error Bytes

abbrev pub recipient_hrp : Bytes
recipient_hrp = codes "age1phone"

abbrev pub stanza_tag : Bytes
stanza_tag = codes "phone-p256-v1"

abbrev pub stanza_tag_v2 : Bytes
stanza_tag_v2 = codes "phone-p256-v2"

abbrev pub file_key_bytes : ℕ
file_key_bytes = 16

abbrev pub id_bytes : ℕ
id_bytes = 16

abbrev pub compressed_point_bytes : ℕ
compressed_point_bytes = 33

abbrev pub stanza_body_bytes : ℕ
stanza_body_bytes = file_key_bytes + 16

abbrev pub kdf_info : Bytes
kdf_info = codes "age-plugin-phone/recipient/p256/v1"

abbrev pub file_key_kdf_info_v2 : Bytes
file_key_kdf_info_v2 = codes "age-plugin-phone/recipient/p256/v2/file-key"

abbrev pub selection_kdf_info_v2 : Bytes
selection_kdf_info_v2 = codes "age-plugin-phone/recipient/p256/v2/selection"

-- `NONCE`: twelve zero bytes.
abbrev pub zero_nonce : Bytes
zero_nonce = 0 ∷ 0 ∷ 0 ∷ 0 ∷ 0 ∷ 0 ∷ 0 ∷ 0 ∷ 0 ∷ 0 ∷ 0 ∷ 0 ∷ []

-- `matches!(bytes.first(), Some(2 | 3))`
unfoldable pub has_compressed_tag : Bytes → Bool
has_compressed_tag [] = false
has_compressed_tag (t ∷ rest) = t == 2 || t == 3

-- `payload[0] == version`
unfoldable pub has_version : ℕ → Bytes → Bool
has_version version [] = false
has_version version (v ∷ rest) = v == version

unfoldable pub to_ascii_lowercase : Bytes → Bytes
to_ascii_lowercase = map (λ b. if leb 65 b && leb b 90 then b + 32 else b)

module _ (x : Crypto) where
  open x use {
    Point, from_sec1_bytes, to_encoded_point, hkdf_extract, hkdf_expand, base64_encode,
    base64_decode, bech32_encode, bech32_decode, from_base32,
  }

  unfoldable pub public_key_bytes : Point → Bytes
  public_key_bytes key = to_encoded_point key true

  unfoldable pub from_public_key_bytes : Bytes → Result Error Point
  unfolding has_compressed_tag
  from_public_key_bytes bytes = do
    ensure (length bytes == compressed_point_bytes && has_compressed_tag bytes) invalid_public_key
    key ← ok_or (from_sec1_bytes bytes) invalid_public_key
    ensure (bytes_eq (to_encoded_point key true) bytes) invalid_public_key
    ok key

  unfoldable pub recipient_to_string : Point → Result Error Bytes
  unfolding public_key_bytes
  recipient_to_string recipient =
      ok_or (bech32_encode recipient_hrp (1 ∷ public_key_bytes recipient)) recipient_encoding

  -- `Recipient::parse`
  unfoldable pub parse_recipient : Bytes → Result Error Point
  unfolding has_version
  parse_recipient text = do
    ensure (bytes_eq text (to_ascii_lowercase text)) non_canonical_recipient
    (hrp, groups, bech32) ← ok_or (bech32_decode text) non_canonical_recipient
    ensure (bytes_eq hrp recipient_hrp && bech32) wrong_recipient_hrp
    payload ← ok_or (from_base32 groups) non_canonical_recipient
    ensure (length payload == 1 + compressed_point_bytes) invalid_recipient_length
    ensure (has_version 1 payload) unsupported_recipient_version
    recipient ← from_public_key_bytes (drop 1 payload)
    canonical ← recipient_to_string recipient
    ensure (bytes_eq canonical text) non_canonical_recipient
    ok recipient

  -- The associated functions of `PairedRecipient`.
  unfoldable pub from_public_fields : Bytes → Bytes → Bytes → Result Error (PairedRecipient Point)
  from_public_fields phone desktop id = do
    phone_identity ← from_public_key_bytes phone
    desktop_selection ← from_public_key_bytes desktop
    ok (record {
      phone_identity = phone_identity;
      desktop_selection = desktop_selection;
      identity_id = id;
    })

  unfoldable pub from_plugin_bytes : Bytes → Result Error (PairedRecipient Point)
  unfolding has_version
  from_plugin_bytes bytes = do
    ensure (length bytes == 1 + 33 + 33 + 16) invalid_recipient_length
    ensure (has_version 2 bytes) unsupported_recipient_version
    ensure (length (drop 67 bytes) == id_bytes) invalid_recipient_length
    from_public_fields (take 33 (drop 1 bytes)) (take 33 (drop 34 bytes)) (drop 67 bytes)

  unfoldable pub plugin_bytes : PairedRecipient Point → Bytes
  unfolding public_key_bytes
  plugin_bytes r =
      2
      ∷ (public_key_bytes r.phone_identity
          ++ (public_key_bytes r.desktop_selection ++ r.identity_id))

  unfoldable pub paired_to_string : PairedRecipient Point → Result Error Bytes
  paired_to_string r = ok_or (bech32_encode recipient_hrp (plugin_bytes r)) recipient_encoding

  unfoldable pub parse_paired : Bytes → Result Error (PairedRecipient Point)
  parse_paired text = do
    ensure (bytes_eq text (to_ascii_lowercase text)) non_canonical_recipient
    (hrp, groups, bech32) ← ok_or (bech32_decode text) non_canonical_recipient
    ensure (bytes_eq hrp recipient_hrp && bech32) wrong_recipient_hrp
    payload ← ok_or (from_base32 groups) non_canonical_recipient
    recipient ← from_plugin_bytes payload
    canonical ← paired_to_string recipient
    ensure (bytes_eq canonical text) non_canonical_recipient
    ok recipient

  -- The salt is the two public keys, 33 bytes each.
  unfoldable pub derive_key : Bytes → Bytes → Bytes → Bytes → Result Error Bytes
  derive_key shared ephemeral recipient info =
      ok_or (hkdf_expand (hkdf_extract (ephemeral ++ recipient) shared) info 32) key_derivation

  unfoldable pub decode_base64_exact : Bytes → ℕ → Result Error Bytes
  decode_base64_exact value expected_len = do
    decoded ← ok_or (base64_decode value) invalid_ephemeral_encoding
    ensure (length decoded == expected_len && bytes_eq (base64_encode decoded) value)
        invalid_ephemeral_encoding
    ok decoded

unfoldable pub associated_data : Bytes → Bytes → Bytes
associated_data ephemeral recipient = stanza_tag ++ (0 ∷ (ephemeral ++ recipient))

unfoldable pub file_key_associated_data_v2 : Bytes → Bytes → Bytes
file_key_associated_data_v2 ephemeral phone = stanza_tag_v2 ++ (0 ∷ (ephemeral ++ phone))

unfoldable pub selection_associated_data : Bytes → Bytes → Bytes → Bytes → Bytes
selection_associated_data ephemeral phone desktop body =
    stanza_tag_v2 ++ (0 ∷ (codes "selection" ++ (0 ∷ (ephemeral ++ (phone ++ (desktop ++ body))))))
