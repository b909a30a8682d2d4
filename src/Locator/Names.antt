-- ===== src/Locator/Names.antt =====
-- crates/desktop/src/locator.rs: the files of locators, created and opened.
use age_plugin_phone.Base.{
  ℕ, ◌/◌, ◌%◌, ◌<◌, ◌≡◌, refl, sym, ap, ◌∙◌, [], ◌∷◌, ◌++◌, arith, Bytes, IsBytes, IsArray,
  bytes_eq_refl, length, ok,
}
use mathlib.Core.List.{head-eq_of_cons-eq, tail-eq_of_cons-eq}
use age_plugin_phone.Cbor.{Cbor, IsCbor}
use age_plugin_phone.Pairing.{PublicIdentityStub, hex_digit, hex}
use age_plugin_phone.Locator.{
  Paths, PairingLocator, PairingLocatorRecord, encode, decode, locator_name,
}
use age_plugin_phone.Locator.Records.{FitsRecord, AreAbsolute, decode_record-encode_record}

hex_digit_injective : (a b : ℕ) → a < 16 → b < 16 → hex_digit a ≡ hex_digit b → a ≡ b
hex_digit_injective a b h k e = ground arith

-- Byte strings of one length are told apart by what they are written as.
hex_append :
    (as' bs xs ys : Bytes)
    → length as' ≡ length bs
    → IsBytes as'
    → IsBytes bs
    → hex as' ++ xs ≡ hex bs ++ ys
    → (as' ≡ bs) × (xs ≡ ys)
unfolding hex
hex_append [] [] xs ys l h k e = (refl, e)
hex_append [] (b ∷ bs) xs ys l h k e = ground arith
hex_append (a ∷ as') [] xs ys l h k e = ground arith
hex_append (a ∷ as') (b ∷ bs) xs ys l h k e =
    let high =
      hex_digit_injective (a / 16 % 16) (b / 16 % 16) (omega arith) (omega arith)
        (head-eq_of_cons-eq e) in
    let low =
      hex_digit_injective (a % 16) (b % 16) (omega arith) (omega arith)
        (head-eq_of_cons-eq (tail-eq_of_cons-eq e)) in
    let same : a ≡ b = (let p = h.0 in let q = k.0 in omega arith) in
    let (rest, behind) =
      hex_append as' bs xs ys (omega arith) h.1 k.1 (tail-eq_of_cons-eq (tail-eq_of_cons-eq e)) in
    (ap (λ c. c ∷ as') same ∙ ap (λ cs. b ∷ cs) rest, behind)

-- Two pairings share a file only if they are of one identity and one desktop.
pub locator_name_injective :
    (s t : PublicIdentityStub)
    → IsArray 16 s.identity_id
    → IsArray 16 t.identity_id
    → IsArray 16 s.desktop_id
    → IsArray 16 t.desktop_id
    → locator_name s ≡ locator_name t
    → (s.identity_id ≡ t.identity_id) × (s.desktop_id ≡ t.desktop_id)
unfolding locator_name
locator_name_injective s t (l1, b1) (l2, b2) (l3, b3) (l4, b4) e =
    let (identity, rest) = hex_append s.identity_id t.identity_id _ _ (l1 ∙ sym l2) b1 b2 e in
    let (desktop, _) =
      hex_append s.desktop_id t.desktop_id _ _ (l3 ∙ sym l4) b3 b4 (tail-eq_of_cons-eq rest) in
    (identity, desktop)

module _ (c : Cbor) (paths : Paths) where
  -- The record that is kept for a pairing.
  abbrev pub kept_for : PublicIdentityStub → PairingLocator → PairingLocatorRecord
  kept_for stub locator = record {
    desktop_id = stub.desktop_id;
    identity_id = stub.identity_id;
    transcript_fingerprint = stub.transcript_fingerprint;
    locator = locator;
  }

  -- Once the encoding of a locator with absolute paths is read for its pairing, it is the locator.
  pub decode-encode :
      IsCbor c
      → (stub : PublicIdentityStub) (locator : PairingLocator) (bytes : Bytes)
      → FitsRecord (kept_for stub locator)
      → AreAbsolute paths locator
      → encode c stub locator ≡ ok bytes
      → decode c paths stub bytes ≡ ok locator
  unfolding decode encode
  decode-encode h stub locator bytes fits absolute e =
      rw
        (
          decode_record-encode_record c h paths (kept_for stub locator) bytes fits absolute e,
          bytes_eq_refl stub.desktop_id,
          bytes_eq_refl stub.identity_id,
          bytes_eq_refl stub.transcript_fingerprint,
        )
        refl
