-- ===== src/Tests/Keys.antt =====
-- An instance of `Crypto` with four keys, which a pairing needs: pairs of Booleans. Its Bech32 writes a
-- byte as so many `c`, which a `q` ends.
use age_plugin_phone.Base.{
  ℕ, suc, ◌+◌, ◌*◌, ◌≡◌, refl, ap, ◌⊎◌, inl, inr, Bool, true, false, Option, some, none, List, [],
  ◌∷◌, ◌++◌, arith, Bytes, replicate, bytes_eq, ◌==◌, if◌then◌else◌,
}
use age_plugin_phone.Crypto.{Crypto, IsCrypto}
use age_plugin_phone.Tests.Toy.{toy, toy-IsCrypto, flag, checksum}

abbrev pub Key : Type 0
Key = Bool × Bool

-- The number of a key.
abbrev number : Key → ℕ
number (a, b) = 2 * flag a + flag b

abbrev pub short : Key → Bytes
short (a, b) = (2 + flag a) ∷ flag b ∷ replicate 31 0

abbrev long : Key → Bytes
long (a, b) = 4 ∷ flag a ∷ flag b ∷ replicate 62 0

-- The first key of a list that is written so.
unfoldable pub find_key : Bytes → List Key → Option Key
find_key bs [] = none
find_key bs (key ∷ keys) =
    let rest = find_key bs keys in
    if bytes_eq bs (short key) then some key else if bytes_eq bs (long key) then some key else rest

abbrev pub all_keys : List Key
all_keys = (false, false) ∷ (false, true) ∷ (true, false) ∷ (true, true) ∷ []

-- The signature of a digest under a key.
abbrev pub keyed_sign : Key → Bytes → Bytes
keyed_sign (a, b) digest = flag a ∷ flag b ∷ (digest ++ replicate 30 0)

unfoldable pub tally : Bytes → Bytes
tally [] = []
tally (b ∷ bs) = replicate b 99 ++ (113 ∷ tally bs)

-- The bytes that are written, the first of them counted up to `n`.
unfoldable pub untally : ℕ → Bytes → Option Bytes
untally n [] = if n == 0 then some [] else none
untally n (b ∷ text) =
    let more = untally (suc n) text in
    let rest = untally 0 text in
    if b == 99
    then more
    else if b == 113
    then (elim rest [ none ↦ none | some bs ↦ some (n ∷ bs) ])
    else none

-- The text up to the last separator, and what follows it.
unfoldable pub cut : Bytes → Option (Bytes × Bytes)
cut [] = none
cut (b ∷ text) =
    let rest = cut text in
    elim rest [
      | some parts ↦ some (b ∷ parts.0, parts.1)
      | none ↦ if b == 49 then some ([], text) else none
    ]

abbrev pub bech32_of : Bytes × Bytes → Option (Bytes × List ℕ × Bool)
bech32_of (hrp, text) = elim (untally 0 text) [ none ↦ none | some bs ↦ some (hrp, bs, true) ]

abbrev pub keyed : Crypto
keyed = record {
  Point = Key;
  Scalar = Key;
  Signature = Bytes;
  Cipher = Bytes;
  from_sec1_bytes = λ bs. find_key bs all_keys;
  to_encoded_point = λ p compressed. if compressed then short p else long p;
  public_key = λ s. s;
  diffie_hellman = λ s p. (number s * number p) ∷ replicate 31 0;
  signature_from_slice = toy.signature_from_slice;
  normalize_s = λ s. none;
  verify_message = λ p message s. bytes_eq s (keyed_sign p (checksum message));
  sha256 = toy.sha256;
  hkdf_extract = toy.hkdf_extract;
  hkdf_expand = toy.hkdf_expand;
  cipher_from_slice = toy.cipher_from_slice;
  encrypt = toy.encrypt;
  decrypt = toy.decrypt;
  base64_encode = toy.base64_encode;
  base64_decode = toy.base64_decode;
  base64_url_encode = toy.base64_url_encode;
  base64_url_decode = toy.base64_url_decode;
  bech32_encode = λ hrp bs. some (hrp ++ (49 ∷ tally bs));
  bech32_decode = λ text. elim (cut text) [ none ↦ none | some parts ↦ bech32_of parts ];
  from_base32 = λ groups. some groups;
}

reads :
    (a b short : Bool) → keyed.from_sec1_bytes (keyed.to_encoded_point (a, b) short) ≡ some (a, b)
unfolding find_key bytes_eq
reads false false false = refl
reads false false true = refl
reads false true false = refl
reads false true true = refl
reads true false false = refl
reads true false true = refl
reads true true false = refl
reads true true true = refl

mul_comm : (a b : ℕ) → a * b ≡ b * a
mul_comm a b = ground arith

tagged :
    (a b : Bool)
    → (t : ℕ) × (rest : Bytes) × (keyed.to_encoded_point (a, b) true ≡ t ∷ rest)
      × ((t ≡ 2) ⊎ (t ≡ 3))
tagged true b = (3, flag b ∷ replicate 31 0, refl, inr refl)
tagged false b = (2, flag b ∷ replicate 31 0, refl, inl refl)

pub keyed-IsCrypto : IsCrypto keyed
keyed-IsCrypto = record {
  compressed_length = λ p. refl;
  compressed_tag = λ p. tagged p.0 p.1;
  uncompressed_length = λ p. refl;
  uncompressed_tag = λ p. (flag p.0 ∷ flag p.1 ∷ replicate 62 0, refl);
  from_sec1_law = λ p short. reads p.0 p.1 short;
  diffie_hellman_law = λ a b. ap (λ n. n ∷ replicate 31 0) (mul_comm (number a) (number b));
  diffie_hellman_length = λ a p. refl;
  sha256_length = toy-IsCrypto.sha256_length;
  hkdf_extract_length = toy-IsCrypto.hkdf_extract_length;
  hkdf_expand_law = toy-IsCrypto.hkdf_expand_law;
  cipher_law = toy-IsCrypto.cipher_law;
  aead_law = toy-IsCrypto.aead_law;
  base64_law = toy-IsCrypto.base64_law;
  base64_url_law = toy-IsCrypto.base64_url_law;
  base64_url_no_pad = toy-IsCrypto.base64_url_no_pad;
  base64_url_length = toy-IsCrypto.base64_url_length;
}
