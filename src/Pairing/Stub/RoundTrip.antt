-- ===== src/Pairing/Stub/RoundTrip.antt =====
-- A stub of crates/desktop/src/pairing.rs is read back from its bytes, and only from these.
use age_plugin_phone.Base.{
  ℕ, ◌^◌, ◌<◌, ◌≡◌, ◌≢◌, refl, not, Option, true, false, ◌&&◌, some, none, [], ◌++◌, arith, Bytes,
  bytes_eq, bytes_eq_refl, bytes_eq_sound, bytes_eq-false_iff, length, ◌==◌, ok, ok_or, ensure,
  ensure-ok, >>=-eq-ok, ok_injective, ok_after, &&-parts,
}
use mathlib.Core.Path.{subst}
use age_plugin_phone.Cbor.{Cbor, IsCbor}
use age_plugin_phone.Crypto.{Crypto}
use age_plugin_phone.Recipient.{parse_recipient, public_key_bytes}
use age_plugin_phone.Recipient.Stanza.{map_err, map_err-ok}
use age_plugin_phone.Pairing.{malformed_stub, unsupported_stub, plugin_name, PublicIdentityStub}
use age_plugin_phone.Pairing.Stub.{
  parses, encode_stub, fixed_bytes, keys_are_separate, check_stub, decode_stub,
}

pub record FitsStub (c : Cbor) (v : PublicIdentityStub) : Type 0 where
  pub desktop_fits : length v.desktop_id ≡ 16
  pub identity_fits : length v.identity_id ≡ 16
  pub recipient_fits : length v.recipient < 2 ^ 64
  pub recipient_text : c.is_utf8 v.recipient ≡ true
  pub signing_fits : length v.desktop_signing_public_key ≡ 33
  pub selection_fits : length v.desktop_selection_public_key ≡ 33
  pub phone_fits : length v.phone_signing_public_key ≡ 33
  pub digest_fits : length v.offer_digest ≡ 32
  pub fingerprint_fits : length v.transcript_fingerprint ≡ 32

module _ (c : Cbor) (h : IsCbor c) where
  fixed_bytes_lem :
      (n : ℕ) (bs rest : Bytes)
      → length bs ≡ n
      → n < 2 ^ 64
      → fixed_bytes c n (c.put_bytes bs ++ rest) ≡ ok (bs, rest)
  unfolding fixed_bytes
  fixed_bytes_lem n bs rest l k = rw (h.bytes_law bs rest (omega arith)) (ground arith)

  module _ (x : Crypto) where
    check_stub_lem :
        (v : PublicIdentityStub) (p : x.Point)
        → parse_recipient x v.recipient ≡ ok p
        → keys_are_separate c x (public_key_bytes x p) v ≡ true
        → check_stub c x (encode_stub c v) (c.put_str plugin_name ++ []) v ≡ ok v
    unfolding check_stub
    check_stub_lem v p e s = rw (
      e,
      h.str_law plugin_name [] (omega arith) (h.ascii_law plugin_name refl),
      s,
      bytes_eq_refl plugin_name,
      bytes_eq_refl (encode_stub c v),
    )

    -- A stub whose fields have the sizes of their types, whose recipient parses and whose keys parse
    -- and are pairwise different as `decode` wants is read back from its bytes.
    pub decode_stub-encode_stub :
        (v : PublicIdentityStub) (p : x.Point)
        → FitsStub c v
        → parse_recipient x v.recipient ≡ ok p
        → keys_are_separate c x (public_key_bytes x p) v ≡ true
        → decode_stub c x (encode_stub c v) ≡ ok v
    unfolding decode_stub encode_stub
    decode_stub-encode_stub v p f e s =
        let r10 = c.put_str plugin_name ++ [] in
        let r9 = c.put_bytes v.transcript_fingerprint ++ r10 in
        let r8 = c.put_bytes v.offer_digest ++ r9 in
        let r7 = c.put_bytes v.phone_signing_public_key ++ r8 in
        let r6 = c.put_bytes v.desktop_selection_public_key ++ r7 in
        let r5 = c.put_bytes v.desktop_signing_public_key ++ r6 in
        let r4 = c.put_str v.recipient ++ r5 in
        let r3 = c.put_bytes v.identity_id ++ r4 in
        let r2 = c.put_bytes v.desktop_id ++ r3 in
        let r1 = c.put_u16 1 ++ r2 in
        rw
          (
            h.array_law 11 (c.put_u16 2 ++ r1) (omega arith),
            h.u16_law 2 r1 (omega arith),
            h.u16_law 1 r2 (omega arith),
            fixed_bytes_lem 16 v.desktop_id r3 f.desktop_fits (omega arith),
            fixed_bytes_lem 16 v.identity_id r4 f.identity_fits (omega arith),
            h.str_law v.recipient r5 f.recipient_fits f.recipient_text,
            fixed_bytes_lem 33 v.desktop_signing_public_key r6 f.signing_fits (omega arith),
            fixed_bytes_lem 33 v.desktop_selection_public_key r7 f.selection_fits (omega arith),
            fixed_bytes_lem 33 v.phone_signing_public_key r8 f.phone_fits (omega arith),
            fixed_bytes_lem 32 v.offer_digest r9 f.digest_fits (omega arith),
            fixed_bytes_lem 32 v.transcript_fingerprint r10 f.fingerprint_fits (omega arith),
          )
          (check_stub_lem v p e s)

module _ (c : Cbor) (x : Crypto) where
  -- The three keys of the stub are points, and they and the identity's key are four keys.
  pub record AreSeparate (identity : Bytes) (v : PublicIdentityStub) : Type 0 where
    pub signing_point : x.Point
    pub signing_parsed : x.from_sec1_bytes v.desktop_signing_public_key ≡ some signing_point
    pub selection_point : x.Point
    pub selection_parsed : x.from_sec1_bytes v.desktop_selection_public_key ≡ some selection_point
    pub phone_point : x.Point
    pub phone_parsed : x.from_sec1_bytes v.phone_signing_public_key ≡ some phone_point
    pub selection_signing : v.desktop_selection_public_key ≢ v.desktop_signing_public_key
    pub identity_signing : identity ≢ v.desktop_signing_public_key
    pub identity_selection : identity ≢ v.desktop_selection_public_key
    pub identity_phone : identity ≢ v.phone_signing_public_key
    pub phone_signing : v.phone_signing_public_key ≢ v.desktop_signing_public_key
    pub phone_selection : v.phone_signing_public_key ≢ v.desktop_selection_public_key

  -- What a stub that was accepted is: the bytes are its encoding, its recipient is a key, and its keys
  -- are separate from it and from each other.
  abbrev pub IsChecked : Bytes → PublicIdentityStub → Type 0
  IsChecked bytes v =
      (encode_stub c v ≡ bytes)
      × (p : x.Point) × (parse_recipient x v.recipient ≡ ok p)
      × AreSeparate (public_key_bytes x p) v

  parsed : (o : Option x.Point) → parses o ≡ true → (p : x.Point) × (o ≡ some p)
  parsed none e = cc
  parsed (some p) e = (p, refl)

  differs : (a b : Bytes) → not (bytes_eq a b) ≡ true → a ≢ b
  differs a b e = (bytes_eq-false_iff a b).0 (ground arith)

  keys_are_separate-AreSeparate :
      (identity : Bytes) (v : PublicIdentityStub)
      → keys_are_separate c x identity v ≡ true
      → AreSeparate identity v
  unfolding keys_are_separate
  keys_are_separate-AreSeparate identity v e =
      let (a, e1) = &&-parts _ _ e in
      let (b, e2) = &&-parts _ _ e1 in
      let (d1, e3) = &&-parts _ _ e2 in
      let (k, e4) = &&-parts _ _ e3 in
      let (d2, e5) = &&-parts _ _ e4 in
      let (d3, e6) = &&-parts _ _ e5 in
      let (d4, e7) = &&-parts _ _ e6 in
      let (d5, d6) = &&-parts _ _ e7 in
      let (signing, signing_eq) = parsed (x.from_sec1_bytes v.desktop_signing_public_key) a in
      let (selection, selection_eq) = parsed (x.from_sec1_bytes v.desktop_selection_public_key) b in
      let (phone, phone_eq) = parsed (x.from_sec1_bytes v.phone_signing_public_key) k in
      record {
        signing_point = signing;
        signing_parsed = signing_eq;
        selection_point = selection;
        selection_parsed = selection_eq;
        phone_point = phone;
        phone_parsed = phone_eq;
        selection_signing = differs v.desktop_selection_public_key v.desktop_signing_public_key d1;
        identity_signing = differs identity v.desktop_signing_public_key d2;
        identity_selection = differs identity v.desktop_selection_public_key d3;
        identity_phone = differs identity v.phone_signing_public_key d4;
        phone_signing = differs v.phone_signing_public_key v.desktop_signing_public_key d5;
        phone_selection = differs v.phone_signing_public_key v.desktop_selection_public_key d6;
      }

  check_stub_ok :
      (bytes d : Bytes) (w v : PublicIdentityStub)
      → check_stub c x bytes d w ≡ ok v
      → IsChecked bytes v
  unfolding check_stub
  check_stub_ok bytes d w v e =
      let (p, parsed_as, e1) =
        >>=-eq-ok _ (map_err (parse_recipient x w.recipient) malformed_stub) e in
      let (name, _, e2) = >>=-eq-ok _ (ok_or (c.get_str d) malformed_stub) e1 in
      let (_, checked, e3) =
        >>=-eq-ok _
          (ensure
            (bytes_eq name.0 plugin_name
              && (length name.1 == 0
                  && (bytes_eq (encode_stub c w) bytes
                      && keys_are_separate c x (public_key_bytes x p) w)))
            malformed_stub)
          e2 in
      let (_, all) = &&-parts _ _ (ensure-ok _ _ _ checked) in
      let (_, rest) = &&-parts _ _ all in
      let (same, separate) = &&-parts _ _ rest in
      subst (IsChecked bytes) (ok_injective w v (ok w) refl e3) (
        bytes_eq_sound (encode_stub c w) bytes same,
        p,
        map_err-ok (parse_recipient x w.recipient) malformed_stub p parsed_as,
        keys_are_separate-AreSeparate (public_key_bytes x p) w separate,
      )

  -- What `decode` accepts as a stub is the encoding of what it returns. Its recipient parses as a key, its
  -- three keys are points, and these four keys are pairwise different byte strings.
  pub decode_stub_sound :
      (bytes : Bytes) (v : PublicIdentityStub) → decode_stub c x bytes ≡ ok v → IsChecked bytes v
  unfolding decode_stub
  decode_stub_sound bytes v =
      let P : Type 0 = IsChecked bytes v in
      let bad = malformed_stub in
      ok_after P (ok_or (c.get_array bytes) bad) _ (λ p.
        ok_after P (ensure (elim p.0 [ none ↦ false | some n ↦ n == 11 ]) bad) _ (λ _.
          ok_after P (ok_or (c.get_u16 p.1) bad) _ (λ w.
            ok_after P (ensure (w.0 == 2) unsupported_stub) _ (λ _.
              ok_after P (ok_or (c.get_u16 w.1) bad) _ (λ t.
                ok_after P (ensure (t.0 == 1) unsupported_stub) _ (λ _.
                  ok_after P (fixed_bytes c 16 t.1) _ (λ d.
                    ok_after P (fixed_bytes c 16 d.1) _ (λ i.
                      ok_after P (ok_or (c.get_str i.1) bad) _ (λ r.
                        ok_after P (fixed_bytes c 33 r.1) _ (λ g.
                          ok_after P (fixed_bytes c 33 g.1) _ (λ s.
                            ok_after P (fixed_bytes c 33 s.1) _ (λ k.
                              ok_after P (fixed_bytes c 32 k.1) _ (λ o.
                                ok_after P (fixed_bytes c 32 o.1) _ (λ f.
                                  check_stub_ok bytes f.1
                                    (record {
                                      desktop_id = d.0;
                                      identity_id = i.0;
                                      recipient = r.0;
                                      desktop_signing_public_key = g.0;
                                      desktop_selection_public_key = s.0;
                                      phone_signing_public_key = k.0;
                                      offer_digest = o.0;
                                      transcript_fingerprint = f.0;
                                    })
                                    v))))))))))))))
