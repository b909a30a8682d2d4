-- ===== src/Locator/Records.antt =====
-- crates/desktop/src/locator.rs: what is written as a record of a locator is read back.
use age_plugin_phone.Base.{
  ℕ, ◌^◌, ◌≤◌, ◌<◌, ◌≡◌, refl, sym, ap, ◌∙◌, ◌⊎◌, inl, inr, Bool, true, false, not, any, all, ◌&&◌,
  [], ◌++◌, arith, Bytes, bytes_eq, bytes_eq_refl, bytes_eq_sound, length, ltb, ◌==◌, ok, ok_or,
  ensure, ensure-ok, ok_injective, ok_step, ok_after, &&-parts,
}
use mathlib.Core.Path.{subst}
use age_plugin_phone.Cbor.{Cbor, IsCbor}
use age_plugin_phone.Transport.Policy.{TransportChoice, auto, adb, ble, wifi, qr, to_string}
use age_plugin_phone.Transport.Policy.Routes.{from_str-to_string}
use age_plugin_phone.Locator.{
  Paths, PairingLocator, PairingLocatorRecord, invalid, encoded_locator_path, record_bytes,
  legacy_bytes, encode_record, encode_legacy_record, fixed_bytes, decode_transport, encode_as,
  known_layout, check_record, decode_record,
}

-- The sizes of the arrays, and paths that an item can hold.
pub record FitsRecord (v : PairingLocatorRecord) : Type 0 where
  pub desktop_fits : length v.desktop_id ≡ 16
  pub identity_fits : length v.identity_id ≡ 16
  pub fingerprint_fits : length v.transcript_fingerprint ≡ 32
  pub state_fits : length v.locator.desktop_state < 2 ^ 64
  pub replay_fits : length v.locator.replay_state < 2 ^ 64

abbrev pub AreAbsolute : Paths → PairingLocator → Type 0
AreAbsolute paths v =
    (paths.is_absolute v.desktop_state ≡ true) × (paths.is_absolute v.replay_state ≡ true)

module _ (c : Cbor) where
  -- A path that can be written is a text, and is written as it is.
  encoded_path_ok :
      (path text : Bytes)
      → encoded_locator_path c path ≡ ok text
      → (text ≡ path) × (c.is_utf8 path ≡ true)
  unfolding encoded_locator_path
  encoded_path_ok path text =
      let P : Type 0 = (text ≡ path) × (c.is_utf8 path ≡ true) in
      ok_step P (ensure (c.is_utf8 path && not (any (λ b. b == 10) path)) invalid) _ (λ u e f.
        (sym (ok_injective path text (ok path) refl f), (&&-parts _ _ (ensure-ok _ _ u e)).0))

  abbrev Written : PairingLocatorRecord → Bytes → Bytes → Type 0
  Written v bytes written =
      (written ≡ bytes)
      × (c.is_utf8 v.locator.desktop_state ≡ true)
      × (c.is_utf8 v.locator.replay_state ≡ true)

  encode_record_ok :
      (v : PairingLocatorRecord) (bytes : Bytes)
      → encode_record c v ≡ ok bytes
      → Written v bytes (record_bytes c v v.locator.desktop_state v.locator.replay_state)
  unfolding encode_record
  encode_record_ok v bytes =
      let desktop = v.locator.desktop_state in
      let replay = v.locator.replay_state in
      let P : Type 0 = Written v bytes (record_bytes c v desktop replay) in
      ok_step P (encoded_locator_path c desktop) _ (λ d e1.
        ok_step P (encoded_locator_path c replay) _ (λ r e2 e3.
          let (same, text) = encoded_path_ok desktop d e1 in
          let (same', text') = encoded_path_ok replay r e2 in
          let out = ok_injective (record_bytes c v d r) bytes (ok (record_bytes c v d r)) refl e3 in
          (
            subst (λ p. record_bytes c v p replay ≡ bytes) same
                (subst (λ p. record_bytes c v d p ≡ bytes) same' out),
            text,
            text',
          )))

  encode_legacy_record_ok :
      (v : PairingLocatorRecord) (bytes : Bytes)
      → encode_legacy_record c v ≡ ok bytes
      → Written v bytes (legacy_bytes c v v.locator.desktop_state v.locator.replay_state)
  unfolding encode_legacy_record
  encode_legacy_record_ok v bytes =
      let desktop = v.locator.desktop_state in
      let replay = v.locator.replay_state in
      let P : Type 0 = Written v bytes (legacy_bytes c v desktop replay) in
      ok_step P (encoded_locator_path c desktop) _ (λ d e1.
        ok_step P (encoded_locator_path c replay) _ (λ r e2 e3.
          let (same, text) = encoded_path_ok desktop d e1 in
          let (same', text') = encoded_path_ok replay r e2 in
          let out = ok_injective (legacy_bytes c v d r) bytes (ok (legacy_bytes c v d r)) refl e3 in
          (
            subst (λ p. legacy_bytes c v p replay ≡ bytes) same
                (subst (λ p. legacy_bytes c v d p ≡ bytes) same' out),
            text,
            text',
          )))

to_string_ascii : (t : TransportChoice) → all (λ b. ltb b 128) (to_string t) ≡ true
unfolding to_string
to_string_ascii auto = refl
to_string_ascii adb = refl
to_string_ascii ble = refl
to_string_ascii wifi = refl
to_string_ascii qr = refl

to_string_le : (t : TransportChoice) → length (to_string t) ≤ 4
unfolding to_string
to_string_le auto = omega arith
to_string_le adb = omega arith
to_string_le ble = omega arith
to_string_le wifi = omega arith
to_string_le qr = omega arith

module _ (c : Cbor) (h : IsCbor c) (paths : Paths) where
  fixed_bytes_lem :
      (n : ℕ) (bs rest : Bytes)
      → length bs ≡ n
      → n < 2 ^ 64
      → fixed_bytes c n (c.put_bytes bs ++ rest) ≡ ok (bs, rest)
  unfolding fixed_bytes
  fixed_bytes_lem n bs rest l k = rw (h.bytes_law bs rest (omega arith)) (ground arith)

  check_record_lem :
      (current : Bool) (bytes : Bytes) (v : PairingLocatorRecord)
      → encode_as c current v ≡ ok bytes
      → AreAbsolute paths v.locator
      → check_record c paths current bytes [] v ≡ ok v
  unfolding check_record
  check_record_lem current bytes v e (a, b) = rw (e, bytes_eq_refl bytes, a, b) refl

  transport_lem :
      (t : TransportChoice) (rest : Bytes)
      → decode_transport c true (c.put_str (to_string t) ++ rest) ≡ ok (t, rest)
  unfolding decode_transport
  transport_lem t rest =
      let short = to_string_le t in
      rw
        (
          h.str_law (to_string t) rest (omega arith)
              (h.ascii_law (to_string t) (to_string_ascii t)),
          from_str-to_string t,
        )
        refl

  decode_record_bytes :
      (v : PairingLocatorRecord) (bytes : Bytes)
      → FitsRecord v
      → AreAbsolute paths v.locator
      → encode_record c v ≡ ok bytes
      → c.is_utf8 v.locator.desktop_state ≡ true
      → c.is_utf8 v.locator.replay_state ≡ true
      → record_bytes c v v.locator.desktop_state v.locator.replay_state ≡ bytes
      → decode_record c paths bytes ≡ ok v
  unfolding decode_record record_bytes known_layout
  decode_record_bytes v bytes f a e text text' same =
      let r7 = c.put_str (to_string v.locator.transport) ++ [] in
      let r6 = c.put_str v.locator.replay_state ++ r7 in
      let r5 = c.put_str v.locator.desktop_state ++ r6 in
      let r4 = c.put_bytes v.transcript_fingerprint ++ r5 in
      let r3 = c.put_bytes v.identity_id ++ r4 in
      let r2 = c.put_bytes v.desktop_id ++ r3 in
      let checked = check_record_lem true bytes v e a in
      subst (λ b. decode_record c paths b ≡ ok v) same
        (rw
          (
            h.array_law 7 (c.put_u16 3 ++ r2) (omega arith),
            h.u16_law 3 r2 (omega arith),
            fixed_bytes_lem 16 v.desktop_id r3 f.desktop_fits (omega arith),
            fixed_bytes_lem 16 v.identity_id r4 f.identity_fits (omega arith),
            fixed_bytes_lem 32 v.transcript_fingerprint r5 f.fingerprint_fits (omega arith),
            h.str_law v.locator.desktop_state r6 f.state_fits text,
            h.str_law v.locator.replay_state r7 f.replay_fits text',
            transport_lem v.locator.transport [],
          )
          (subst (λ b. check_record c paths true b [] v ≡ ok v) (sym same) checked))

  -- A record whose identifiers have the sizes of their types, and whose paths are absolute, is read
  -- back from what it is written as.
  pub decode_record-encode_record :
      (v : PairingLocatorRecord) (bytes : Bytes)
      → FitsRecord v
      → AreAbsolute paths v.locator
      → encode_record c v ≡ ok bytes
      → decode_record c paths bytes ≡ ok v
  decode_record-encode_record v bytes f a e =
      let (same, text, text') = encode_record_ok c v bytes e in
      decode_record_bytes v bytes f a e text text' same

  legacy_record_bytes :
      (v : PairingLocatorRecord) (bytes : Bytes)
      → v.locator.transport ≡ auto
      → FitsRecord v
      → AreAbsolute paths v.locator
      → encode_legacy_record c v ≡ ok bytes
      → c.is_utf8 v.locator.desktop_state ≡ true
      → c.is_utf8 v.locator.replay_state ≡ true
      → legacy_bytes c v v.locator.desktop_state v.locator.replay_state ≡ bytes
      → decode_record c paths bytes ≡ ok v
  unfolding decode_record legacy_bytes known_layout decode_transport
  legacy_record_bytes v bytes t f a e text text' same =
      let r6 = c.put_str v.locator.replay_state ++ [] in
      let r5 = c.put_str v.locator.desktop_state ++ r6 in
      let r4 = c.put_bytes v.transcript_fingerprint ++ r5 in
      let r3 = c.put_bytes v.identity_id ++ r4 in
      let r2 = c.put_bytes v.desktop_id ++ r3 in
      let checked = check_record_lem false bytes v e a in
      subst (λ b. decode_record c paths b ≡ ok v) same
        (rw
          (
            h.array_law 6 (c.put_u16 2 ++ r2) (omega arith),
            h.u16_law 2 r2 (omega arith),
            fixed_bytes_lem 16 v.desktop_id r3 f.desktop_fits (omega arith),
            fixed_bytes_lem 16 v.identity_id r4 f.identity_fits (omega arith),
            fixed_bytes_lem 32 v.transcript_fingerprint r5 f.fingerprint_fits (omega arith),
            h.str_law v.locator.desktop_state r6 f.state_fits text,
            h.str_law v.locator.replay_state [] f.replay_fits text',
          )
          (subst
            (λ q.
              check_record c paths false
                (legacy_bytes c v v.locator.desktop_state v.locator.replay_state) []
                (record {
                  desktop_id = v.desktop_id;
                  identity_id = v.identity_id;
                  transcript_fingerprint = v.transcript_fingerprint;
                  locator = record {
                    desktop_state = v.locator.desktop_state;
                    replay_state = v.locator.replay_state;
                    transport = q;
                  };
                })
              ≡ ok v)
            t (subst (λ b. check_record c paths false b [] v ≡ ok v) (sym same) checked)))

  -- So is a record of the older version, for which the transport is chosen automatically.
  pub decode_record-encode_legacy_record :
      (v : PairingLocatorRecord) (bytes : Bytes)
      → v.locator.transport ≡ auto
      → FitsRecord v
      → AreAbsolute paths v.locator
      → encode_legacy_record c v ≡ ok bytes
      → decode_record c paths bytes ≡ ok v
  decode_record-encode_legacy_record v bytes t f a e =
      let (same, text, text') = encode_legacy_record_ok c v bytes e in
      legacy_record_bytes v bytes t f a e text text' same

module _ (c : Cbor) (paths : Paths) where
  -- What accepting a record says of it.
  abbrev pub IsRecordOf : Bytes → PairingLocatorRecord → Type 0
  IsRecordOf bytes v =
      ((encode_record c v ≡ ok bytes) ⊎ (encode_legacy_record c v ≡ ok bytes))
      × AreAbsolute paths v.locator

  either_encoding :
      (current : Bool) (v : PairingLocatorRecord) (bytes : Bytes)
      → encode_as c current v ≡ ok bytes
      → (encode_record c v ≡ ok bytes) ⊎ (encode_legacy_record c v ≡ ok bytes)
  either_encoding true v bytes e = inl e
  either_encoding false v bytes e = inr e

  check_record_ok :
      (current : Bool) (bytes d : Bytes) (w v : PairingLocatorRecord)
      → check_record c paths current bytes d w ≡ ok v
      → IsRecordOf bytes v
  unfolding check_record
  check_record_ok current bytes d w v =
      let P : Type 0 = IsRecordOf bytes v in
      ok_after P (ensure (length d == 0) invalid) _ (λ _.
        ok_step P (encode_as c current w) _ (λ canonical e1.
          ok_step P (ensure (bytes_eq canonical bytes) invalid) _ (λ u e2.
            ok_step P (ensure (paths.is_absolute w.locator.desktop_state) invalid) _ (λ u1 e3.
              ok_step P (ensure (paths.is_absolute w.locator.replay_state) invalid) _ (λ u2 e4 e5.
                let same = bytes_eq_sound canonical bytes (ensure-ok _ _ u e2) in
                subst (IsRecordOf bytes) (ok_injective w v (ok w) refl e5) (
                  either_encoding current w bytes (e1 ∙ ap (λ b. ok b) same),
                  (ensure-ok _ _ u1 e3, ensure-ok _ _ u2 e4),
                ))))))

  -- What is accepted as a record is an encoding of what is returned, the current or the older one, and
  -- both of its paths are absolute.
  pub decode_record_sound :
      (bytes : Bytes) (v : PairingLocatorRecord)
      → decode_record c paths bytes ≡ ok v
      → IsRecordOf bytes v
  unfolding decode_record
  decode_record_sound bytes v =
      let P : Type 0 = IsRecordOf bytes v in
      ok_after P (ok_or (c.get_array bytes) invalid) _ (λ a.
        ok_after P (ok_or (c.get_u16 a.1) invalid) _ (λ w.
          ok_after P (ensure (known_layout c a.0 w.0) invalid) _ (λ _.
            ok_after P (fixed_bytes c 16 w.1) _ (λ d. ok_after P (fixed_bytes c 16 d.1) _ (λ i.
              ok_after P (fixed_bytes c 32 i.1) _ (λ f.
                ok_after P (ok_or (c.get_str f.1) invalid) _ (λ s.
                  ok_after P (ok_or (c.get_str s.1) invalid) _ (λ r.
                    ok_after P (decode_transport c (w.0 == 3) r.1) _ (λ t.
                      check_record_ok (w.0 == 3) bytes t.1
                        (record {
                          desktop_id = d.0;
                          identity_id = i.0;
                          transcript_fingerprint = f.0;
                          locator = record {
                            desktop_state = s.0;
                            replay_state = r.0;
                            transport = t.0;
                          };
                        })
                        v)))))))))
