-- ===== src/Discovery/Binding.antt =====
-- crates/desktop/src/wifi.rs: which query a response answers.
use age_plugin_phone.Base.{
  ℕ, ◌≡◌, refl, sym, ap, ◌∙◌, true, Option, some, none, [], ◌∷◌, ◌++◌, arith, Bytes, bytes_eq,
  bytes_eq_sound, length, length-append, take, drop, take-append_eq, drop-append_eq, ◌==◌, &&-parts,
}
use mathlib.Core.List.{append-nil}
use age_plugin_phone.Crypto.{Crypto}
use age_plugin_phone.Transport.{u16_to_be}
use age_plugin_phone.Discovery.{
  DiscoveryPurpose, for_pairing, for_unwrap, purpose_code, DiscoveryQuery, encode_discovery,
  valid_for, valid_discovery_response,
}

-- The sizes of the arrays.
pub record FitsQuery (q : DiscoveryQuery) : Type 0 where
  pub nonce_fits : length q.nonce ≡ 32
  pub desktop_fits : length q.desktop_id ≡ 16
  pub identity_fits : length q.identity_id ≡ 16

length-encode_discovery :
    (q : DiscoveryQuery) (kind : ℕ) → FitsQuery q → length (encode_discovery q kind) ≡ 72
unfolding encode_discovery u16_to_be
length-encode_discovery q kind f =
    let a = f.nonce_fits in
    let b = f.desktop_fits in
    let d = f.identity_fits in
    omega (
      arith,
      length-append q.nonce (q.desktop_id ++ q.identity_id),
      length-append q.desktop_id q.identity_id,
    )

take_all : (n : ℕ) (bytes : Bytes) → length bytes ≡ n → take n bytes ≡ bytes
take_all n bytes e = ap (λ b. take n b) (sym (append-nil bytes)) ∙ take-append_eq n bytes [] e

module _ (x : Crypto) where
  -- A valid response begins with the encoding of its query.
  valid_for-encode_discovery :
      (purpose : DiscoveryPurpose) (key : Option x.Point) (encoded : Bytes) (q : DiscoveryQuery)
      → FitsQuery q
      → valid_for x purpose key encoded q ≡ true
      → take 72 encoded ≡ encode_discovery q 2
  unfolding valid_for
  valid_for-encode_discovery for_pairing none encoded q f e =
      let same = bytes_eq_sound encoded (encode_discovery q 2) e in
      ap (λ b. take 72 b) same ∙ take_all 72 (encode_discovery q 2) (length-encode_discovery q 2 f)
  valid_for-encode_discovery for_unwrap (some key) encoded q f e =
      let (_, rest) = &&-parts (length encoded == 136) _ e in
      let (same, _) = &&-parts (bytes_eq (take 72 encoded) (encode_discovery q 2)) _ rest in
      bytes_eq_sound (take 72 encoded) (encode_discovery q 2) same
  valid_for-encode_discovery for_pairing (some key) encoded q f e = cc
  valid_for-encode_discovery for_unwrap none encoded q f e = cc

purpose_code_injective : (p q : DiscoveryPurpose) → purpose_code p ≡ purpose_code q → p ≡ q
purpose_code_injective for_pairing for_pairing e = refl
purpose_code_injective for_unwrap for_unwrap e = refl
purpose_code_injective for_pairing for_unwrap e = ground arith
purpose_code_injective for_unwrap for_pairing e = ground arith

-- The same query: its purpose, its nonce and the two identifiers.
abbrev pub SameQuery : DiscoveryQuery → DiscoveryQuery → Type 0
SameQuery p q =
    (p.purpose ≡ q.purpose)
    × (p.nonce ≡ q.nonce)
    × (p.desktop_id ≡ q.desktop_id)
    × (p.identity_id ≡ q.identity_id)

-- The eighth byte, which tells the purpose.
abbrev eighth : Bytes → ℕ
eighth (_ ∷ _ ∷ _ ∷ _ ∷ _ ∷ _ ∷ _ ∷ b ∷ _) = b
eighth _ = 0

encode_discovery_injective :
    (p q : DiscoveryQuery)
    → FitsQuery p
    → FitsQuery q
    → encode_discovery p 2 ≡ encode_discovery q 2
    → SameQuery p q
unfolding encode_discovery u16_to_be
encode_discovery_injective p q f g e =
    let code = ap eighth e in
    let rest : p.nonce ++ (p.desktop_id ++ p.identity_id)
        ≡ q.nonce ++ (q.desktop_id ++ q.identity_id) =
      ap (λ b. drop 8 b) e in
    let nonce =
      sym (take-append_eq 32 p.nonce (p.desktop_id ++ p.identity_id) f.nonce_fits)
      ∙ (ap (λ b. take 32 b) rest
          ∙ take-append_eq 32 q.nonce (q.desktop_id ++ q.identity_id) g.nonce_fits) in
    let ids =
      sym (drop-append_eq 32 p.nonce (p.desktop_id ++ p.identity_id) f.nonce_fits)
      ∙ (ap (λ b. drop 32 b) rest
          ∙ drop-append_eq 32 q.nonce (q.desktop_id ++ q.identity_id) g.nonce_fits) in
    (
      purpose_code_injective p.purpose q.purpose code,
      nonce,
      sym (take-append_eq 16 p.desktop_id p.identity_id f.desktop_fits)
          ∙ (ap (λ b. take 16 b) ids ∙ take-append_eq 16 q.desktop_id q.identity_id g.desktop_fits),
      sym (drop-append_eq 16 p.desktop_id p.identity_id f.desktop_fits)
          ∙ (ap (λ b. drop 16 b) ids ∙ drop-append_eq 16 q.desktop_id q.identity_id g.desktop_fits),
    )

module _ (x : Crypto) where
  -- A response is valid for one query only, whatever the keys are: a response to another nonce, to
  -- another purpose, or of another pairing is not taken.
  pub valid_discovery_response-SameQuery :
      (encoded : Bytes) (p q : DiscoveryQuery) (key key' : Option x.Point)
      → FitsQuery p
      → FitsQuery q
      → valid_discovery_response x encoded p key ≡ true
      → valid_discovery_response x encoded q key' ≡ true
      → SameQuery p q
  unfolding valid_discovery_response
  valid_discovery_response-SameQuery encoded p q key key' f g e e' =
      encode_discovery_injective p q f g (
        sym (valid_for-encode_discovery x p.purpose key encoded p f e)
        ∙ valid_for-encode_discovery x q.purpose key' encoded q g e')
