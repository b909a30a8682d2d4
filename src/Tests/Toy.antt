-- ===== src/Tests/Toy.antt =====
-- A small instance of `Crypto` that meets its laws: keys are Booleans, and digests and
-- authentication tags are checksums.
use age_plugin_phone.Base.{
  any, length-map, ℕ, zero, suc, ◌+◌, ◌-◌, ◌%◌, ◌≡◌, refl, ap, inl, inr, Bool, true, false, ◌&&◌,
  Option, some, none, [], ◌∷◌, ◌++◌, map, arith, Bytes, length, length-append, take, drop,
  take-append_eq, replicate, bytes_eq, bytes_eq_refl, leb, ◌==◌, if◌then◌else◌,
}
use age_plugin_phone.Crypto.{Crypto, IsCrypto}

abbrev pub flag : Bool → ℕ
flag true = 1
flag false = 0

unfoldable pub total : Bytes → ℕ
total [] = 0
total (b ∷ bs) = b + total bs

abbrev pub compressed : Bool → Bytes
compressed p = (2 + flag p) ∷ replicate 32 0

abbrev pub uncompressed : Bool → Bytes
uncompressed p = 4 ∷ flag p ∷ replicate 63 0

unfoldable pub parse_point : Bytes → Option Bool
unfolding bytes_eq
parse_point bs =
    if bytes_eq bs (compressed true)
    then some true
    else if bytes_eq bs (compressed false)
    then some false
    else if bytes_eq bs (uncompressed true)
    then some true
    else if bytes_eq bs (uncompressed false)
    then some false
    else none

abbrev pub checksum : Bytes → Bytes
checksum bs = (total bs % 256) ∷ (length bs % 256) ∷ replicate 30 0

-- The signature of a digest under the key `p`.
abbrev pub toy_sign : Bool → Bytes → Bytes
toy_sign p digest = flag p ∷ (digest ++ replicate 31 0)

abbrev pub seal_tag : Bytes → Bytes → Bytes → Bytes → Bytes
seal_tag c nonce message aad = (total (c ++ (nonce ++ (aad ++ message))) % 256) ∷ replicate 15 0

unfoldable pub toy_decrypt : Bytes → Bytes → Bytes → Bytes → Option Bytes
toy_decrypt c nonce sealed aad =
    let message = take (length sealed - 16) sealed in
    if bytes_eq (message ++ seal_tag c nonce message aad) sealed then some message else none

abbrev pub toy : Crypto
toy = record {
  Point = Bool;
  Scalar = Bool;
  Signature = Bytes;
  Cipher = Bytes;
  from_sec1_bytes = parse_point;
  to_encoded_point = λ p short. if short then compressed p else uncompressed p;
  public_key = λ s. s;
  diffie_hellman = λ s p. flag (s && p) ∷ replicate 31 0;
  signature_from_slice = λ bs. if length bs == 64 then some bs else none;
  normalize_s = λ s. none;
  verify_message = λ p message s. bytes_eq s (toy_sign p (checksum message));
  sha256 = checksum;
  hkdf_extract = λ salt ikm. checksum (salt ++ ikm);
  hkdf_expand = λ prk info n.
      if length prk == 32 && leb n 8160
      then some (replicate n (total (prk ++ info) % 256))
      else none;
  cipher_from_slice = λ key. if length key == 32 then some key else none;
  encrypt = λ c nonce message aad. some (message ++ seal_tag c nonce message aad);
  decrypt = toy_decrypt;
  base64_encode = λ bs. bs;
  base64_decode = λ bs. some bs;
  base64_url_encode = map (λ b. b + 62);
  base64_url_decode = λ bs. some (map (λ b. b - 62) bs);
  bech32_encode = λ hrp bs. some (map (λ b. b + 128) (length hrp ∷ (hrp ++ bs)));
  bech32_decode = λ text. elim text [
    | [] ↦ none
    | n ∷ rest ↦
        (let plain = map (λ b. b - 128) rest in
          some (take (n - 128) plain, drop (n - 128) plain, true))
  ];
  from_base32 = λ groups. some groups;
}

pub length-replicate : (n b : ℕ) → length (replicate n b) ≡ n
length-replicate zero b = refl
length-replicate (suc n) b = ap suc (length-replicate n b)

pub toy_encrypt_decrypt :
    (c nonce message aad : Bytes)
    → toy_decrypt c nonce (message ++ seal_tag c nonce message aad) aad ≡ some message
unfolding toy_decrypt
toy_encrypt_decrypt c nonce message aad =
    let tag = seal_tag c nonce message aad in
    let cut : take (length (message ++ tag) - 16) (message ++ tag) ≡ message =
      take-append_eq (length (message ++ tag) - 16) message tag
        (omega (arith, length-append message tag)) in
    rw (cut, bytes_eq_refl (message ++ tag))

pub shift_back : (bs : Bytes) → map (λ b. b - 62) (map (λ b. b + 62) bs) ≡ bs
shift_back [] = refl
shift_back (b ∷ bs) = let head : (b + 62) - 62 ≡ b = omega arith in rw (head, shift_back bs)

pub shift_no_pad : (bs : Bytes) → any (λ b. b == 61) (map (λ b. b + 62) bs) ≡ false
shift_no_pad [] = refl
shift_no_pad (b ∷ bs) = ground (arith, shift_no_pad bs)

pub toy-IsCrypto : IsCrypto toy
unfolding parse_point
toy-IsCrypto = record {
  compressed_length = λ p. refl;
  compressed_tag = elim [
    | true ↦ (3, replicate 32 0, refl, inr refl)
    | false ↦ (2, replicate 32 0, refl, inl refl)
  ];
  uncompressed_length = λ p. refl;
  uncompressed_tag = λ p. (flag p ∷ replicate 63 0, refl);
  from_sec1_law = elim [
    | true ↦ elim [ true ↦ refl | false ↦ refl ]
    | false ↦ elim [ true ↦ refl | false ↦ refl ]
  ];
  diffie_hellman_law = elim [
    | true ↦ elim [ true ↦ refl | false ↦ refl ]
    | false ↦ elim [ true ↦ refl | false ↦ refl ]
  ];
  diffie_hellman_length = λ a p. refl;
  sha256_length = λ bs. refl;
  hkdf_extract_length = λ salt ikm. refl;
  hkdf_expand_law = λ prk info n l k.
      (replicate n (total (prk ++ info) % 256), ground arith, length-replicate n _);
  cipher_law = λ key l. (key, ground arith);
  aead_law = λ c nonce message aad l k. (
    message ++ seal_tag c nonce message aad,
    refl,
    length-append message (seal_tag c nonce message aad),
    toy_encrypt_decrypt c nonce message aad,
  );
  base64_law = λ bs. refl;
  base64_url_law = λ bs. ap some (shift_back bs);
  base64_url_no_pad = shift_no_pad;
  base64_url_length = λ bs. omega (arith, length-map (λ b. b + 62) bs);
}
