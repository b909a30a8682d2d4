-- ===== src/Crypto.antt =====
-- The third-party crates that the recipient and protocol code call: p256, sha2, hkdf,
-- chacha20poly1305, base64 and bech32. They are not part of the repository, so they are a
-- parameter: abstract types and operations, and a record of the documented behaviour that a
-- theorem may need. Nothing here says that a primitive is secure.
use age_plugin_phone.Base.{
  any, all, leb, not, ◌&&◌, ◌++◌, ◌==◌, ℕ, ◌+◌, ◌*◌, ◌^◌, ◌≤◌, ◌≡◌, Bool, true, false, Option, some,
  ◌⊎◌, List, Bytes, length,
}

pub record Crypto : Type 1 where
  -- `PublicKey` and `VerifyingKey` of p256, and `SecretKey` and `EphemeralSecret`.
  pub Point : Type 0
  pub Scalar : Type 0
  pub Signature : Type 0
  pub Cipher : Type 0
  pub from_sec1_bytes : Bytes → Option Point
  -- The flag asks for the compressed form.
  pub to_encoded_point : Point → Bool → Bytes
  pub public_key : Scalar → Point
  -- `raw_secret_bytes` of `diffie_hellman`.
  pub diffie_hellman : Scalar → Point → Bytes
  pub signature_from_slice : Bytes → Option Signature
  pub normalize_s : Signature → Option Signature
  pub verify_message : Point → Bytes → Signature → Bool
  pub sha256 : Bytes → Bytes
  -- `Hkdf::extract(salt, ikm)`, and `Hkdf::from_prk(prk)?.expand(info, [0; len])`.
  pub hkdf_extract : Bytes → Bytes → Bytes
  pub hkdf_expand : Bytes → Bytes → ℕ → Option Bytes
  -- `ChaCha20Poly1305::new_from_slice(key)`; then nonce, message, associated data.
  pub cipher_from_slice : Bytes → Option Cipher
  pub encrypt : Cipher → Bytes → Bytes → Bytes → Option Bytes
  pub decrypt : Cipher → Bytes → Bytes → Bytes → Option Bytes
  -- `STANDARD_NO_PAD` and `URL_SAFE_NO_PAD` of base64.
  pub base64_encode : Bytes → Bytes
  pub base64_decode : Bytes → Option Bytes
  pub base64_url_encode : Bytes → Bytes
  pub base64_url_decode : Bytes → Option Bytes
  -- `bech32::encode(hrp, bytes.to_base32(), Variant::Bech32)`.
  pub bech32_encode : Bytes → Bytes → Option Bytes
  -- `bech32::decode(text)`: the prefix, the five-bit groups, and whether the variant is Bech32.
  pub bech32_decode : Bytes → Option (Bytes × List ℕ × Bool)
  pub from_base32 : List ℕ → Option Bytes

-- A printable ASCII character that is no capital letter.
abbrev pub is_lower_text : ℕ → Bool
is_lower_text b = (leb 33 b && leb b 126) && not (leb 65 b && leb b 90)

-- Bech32, for a prefix in lower case: the text is printable, in lower case and starts with the prefix,
-- and it is read back.
pub record IsBech32 (x : Crypto) : Type 0 where
  pub text_law :
      (hrp bs text : Bytes)
      → all is_lower_text hrp ≡ true
      → x.bech32_encode hrp bs ≡ some text
      → (all is_lower_text text ≡ true) × (rest : Bytes) × (text ≡ hrp ++ rest)
  pub read_law :
      (hrp bs text : Bytes)
      → all is_lower_text hrp ≡ true
      → x.bech32_encode hrp bs ≡ some text
      → (groups : List ℕ) × (x.bech32_decode text ≡ some (hrp, groups, true))
        × (x.from_base32 groups ≡ some bs)

pub record IsCrypto (x : Crypto) : Type 0 where
  pub compressed_length : (p : x.Point) → length (x.to_encoded_point p true) ≡ 33
  pub compressed_tag :
      (p : x.Point)
      → (t : ℕ) × (rest : Bytes) × (x.to_encoded_point p true ≡ List.◌∷◌ t rest)
        × ((t ≡ 2) ⊎ (t ≡ 3))
  pub uncompressed_length : (p : x.Point) → length (x.to_encoded_point p false) ≡ 65
  pub uncompressed_tag :
      (p : x.Point) → (rest : Bytes) × (x.to_encoded_point p false ≡ List.◌∷◌ 4 rest)
  pub from_sec1_law : (p : x.Point) (b : Bool) → x.from_sec1_bytes (x.to_encoded_point p b) ≡ some p
  pub diffie_hellman_law :
      (a b : x.Scalar) → x.diffie_hellman a (x.public_key b) ≡ x.diffie_hellman b (x.public_key a)
  pub diffie_hellman_length : (a : x.Scalar) (p : x.Point) → length (x.diffie_hellman a p) ≡ 32
  pub sha256_length : (bs : Bytes) → length (x.sha256 bs) ≡ 32
  pub hkdf_extract_length : (salt ikm : Bytes) → length (x.hkdf_extract salt ikm) ≡ 32
  pub hkdf_expand_law :
      (prk info : Bytes) (n : ℕ)
      → length prk ≡ 32
      → n ≤ 255 * 32
      → (out : Bytes) × (x.hkdf_expand prk info n ≡ some out) × (length out ≡ n)
  pub cipher_law :
      (key : Bytes) → length key ≡ 32 → (c : x.Cipher) × (x.cipher_from_slice key ≡ some c)
  pub aead_law :
      (c : x.Cipher) (nonce message aad : Bytes)
      → length nonce ≡ 12
      → length message ≤ 2 ^ 36
      → (out : Bytes) × (x.encrypt c nonce message aad ≡ some out)
        × (length out ≡ length message + 16)
        × (x.decrypt c nonce out aad ≡ some message)
  pub base64_law : (bs : Bytes) → x.base64_decode (x.base64_encode bs) ≡ some bs
  pub base64_url_law : (bs : Bytes) → x.base64_url_decode (x.base64_url_encode bs) ≡ some bs
  -- There is no padding character, and the text is not shorter than the bytes.
  pub base64_url_no_pad : (bs : Bytes) → any (λ b. b == 61) (x.base64_url_encode bs) ≡ false
  pub base64_url_length : (bs : Bytes) → length bs ≤ length (x.base64_url_encode bs)
