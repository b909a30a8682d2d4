-- ===== src/Journal/RoundTrip.antt =====
-- crates/desktop/src/cleanup_journal.rs: a journal is read back as it was written.
use age_plugin_phone.Base.{
  ℕ, ◌^◌, ◌<◌, ◌≡◌, refl, sym, ap, ◌∙◌, true, not, any, ◌&&◌, ◌||◌, [], ◌++◌, arith, Bytes,
  bytes_eq_refl, length, ◌==◌, ok, ensure, ensure-ok, ok_injective, ok_step, &&-parts,
}
use mathlib.Core.Path.{subst}
use age_plugin_phone.Cbor.{Cbor, IsCbor}
use age_plugin_phone.Crypto.{Crypto}
use age_plugin_phone.Pairing.{PublicIdentityStub}
use age_plugin_phone.Pairing.Stub.{encode_stub, decode_stub}
use age_plugin_phone.Locator.{Paths}
use age_plugin_phone.Journal.{
  CleanupTarget, paired, orphan, CleanupJournal, invalid, encoded_path, encode_target,
  encode_journal, fixed_bytes, decode_paired, decode_orphan, decode_target, decode_paths, decode_as,
  paths_are_valid, check_journal, decode_journal,
}

module _ (c : Cbor) (x : Crypto) where
  -- A target whose parts have the sizes of their types, with a stub that is read back from its bytes.
  abbrev pub FitsTarget : CleanupTarget → Type 0
  FitsTarget (paired stub stub_path) =
      (length (encode_stub c stub) < 2 ^ 64)
      × (decode_stub c x (encode_stub c stub) ≡ ok stub)
      × (length stub_path < 2 ^ 64)
  FitsTarget (orphan desktop identity fingerprint) =
      (length desktop ≡ 16) × (length identity ≡ 16) × (length fingerprint ≡ 32)

  pub record FitsJournal (v : CleanupJournal) : Type 0 where
    pub target_fits : FitsTarget v.target
    pub locator_fits : length v.locator_path < 2 ^ 64
    pub desktop_fits : length v.desktop_state < 2 ^ 64
    pub replay_fits : length v.replay_state < 2 ^ 64

  encoded_path_ok :
      (path text : Bytes) → encoded_path c path ≡ ok text → (path ≡ text) × (c.is_utf8 text ≡ true)
  unfolding encoded_path
  encoded_path_ok path text =
      let P : Type 0 = (path ≡ text) × (c.is_utf8 text ≡ true) in
      ok_step P
        (ensure (c.is_utf8 path && not (any (λ b. b == 10 || (b == 13 || b == 0)) path)) invalid) _
        (λ u e f.
          let same = ok_injective path text (ok path) refl f in
          (same, ap c.is_utf8 (sym same) ∙ (&&-parts _ _ (ensure-ok _ _ u e)).0))

  module _ (h : IsCbor c) where
    fixed_bytes_lem :
        (n : ℕ) (bs rest : Bytes)
        → length bs ≡ n
        → n < 2 ^ 64
        → fixed_bytes c n (c.put_bytes bs ++ rest) ≡ ok (bs, rest)
    unfolding fixed_bytes
    fixed_bytes_lem n bs rest l k = rw (h.bytes_law bs rest (omega arith)) (ground arith)

    paired_lem :
        (stub : PublicIdentityStub) (path rest : Bytes)
        → FitsTarget (paired stub path)
        → c.is_utf8 path ≡ true
        → decode_paired c x (c.put_bytes (encode_stub c stub) ++ (c.put_str path ++ rest))
          ≡ ok (paired stub path, rest)
    unfolding decode_paired
    paired_lem stub path rest (l, e, k) text =
        rw
          (
            h.bytes_law (encode_stub c stub) (c.put_str path ++ rest) l,
            e,
            h.str_law path rest k text,
          )
          refl

    orphan_lem :
        (desktop identity fingerprint rest : Bytes)
        → FitsTarget (orphan desktop identity fingerprint)
        → decode_orphan c x
            (c.put_bytes desktop ++ (c.put_bytes identity ++ (c.put_bytes fingerprint ++ rest)))
          ≡ ok (orphan desktop identity fingerprint, rest)
    unfolding decode_orphan
    orphan_lem desktop identity fingerprint rest (l1, l2, l3) =
        rw
          (
            fixed_bytes_lem 16 desktop (c.put_bytes identity ++ (c.put_bytes fingerprint ++ rest))
                l1 (omega arith),
            fixed_bytes_lem 16 identity (c.put_bytes fingerprint ++ rest) l2 (omega arith),
            fixed_bytes_lem 32 fingerprint rest l3 (omega arith),
          )
          refl

    decode_target-encode_target :
        (target : CleanupTarget) (rest bytes : Bytes)
        → FitsTarget target
        → encode_target c target rest ≡ ok bytes
        → decode_target c x bytes ≡ ok (target, rest)
    unfolding encode_target decode_target
    decode_target-encode_target (orphan desktop identity fingerprint) rest bytes fits e =
        let body =
          c.put_bytes desktop ++ (c.put_bytes identity ++ (c.put_bytes fingerprint ++ rest)) in
        let written = c.put_u16 2 ++ (c.put_array 3 ++ body) in
        subst (λ b. decode_target c x b ≡ ok (orphan desktop identity fingerprint, rest))
          (ok_injective written bytes (ok written) refl e)
          (rw (h.u16_law 2 (c.put_array 3 ++ body) (omega arith), h.array_law 3 body (omega arith))
            (orphan_lem desktop identity fingerprint rest fits))
    decode_target-encode_target (paired stub path) rest bytes fits encoded =
        let P : Type 0 = decode_target c x bytes ≡ ok (paired stub path, rest) in
        ok_step P (encoded_path c path) _
          (λ text e f.
            let (same, valid) = encoded_path_ok path text e in
            let body = c.put_bytes (encode_stub c stub) ++ (c.put_str text ++ rest) in
            let written = c.put_u16 1 ++ (c.put_array 2 ++ body) in
            let fits' : FitsTarget (paired stub text) =
              subst (λ p. FitsTarget (paired stub p)) same fits in
            let read : decode_target c x written ≡ ok (paired stub text, rest) =
              rw
                (
                  h.u16_law 1 (c.put_array 2 ++ body) (omega arith),
                  h.array_law 2 body (omega arith),
                )
                (paired_lem stub text rest fits' valid) in
            subst (λ b. decode_target c x b ≡ ok (paired stub path, rest))
              (ok_injective written bytes (ok written) refl f)
              (subst (λ p. decode_target c x written ≡ ok (paired stub p, rest)) (sym same) read))
          encoded

    -- The paths of a journal, as texts.
    decode_paths_lem :
        (v : CleanupJournal)
        → FitsJournal v
        → c.is_utf8 v.locator_path ≡ true
        → c.is_utf8 v.desktop_state ≡ true
        → c.is_utf8 v.replay_state ≡ true
        → decode_paths c x v.target (
            c.put_str v.locator_path
            ++ (c.put_str v.desktop_state ++ (c.put_str v.replay_state ++ [])))
          ≡ ok (v, [])
    unfolding decode_paths
    decode_paths_lem v f e1 e2 e3 =
        let r2 = c.put_str v.replay_state ++ [] in
        let r1 = c.put_str v.desktop_state ++ r2 in
        rw
          (
            h.str_law v.locator_path r1 f.locator_fits e1,
            h.str_law v.desktop_state r2 f.desktop_fits e2,
            h.str_law v.replay_state [] f.replay_fits e3,
          )
          refl

    -- The same for texts that are the paths.
    read_paths :
        (v : CleanupJournal) (locator desktop replay : Bytes)
        → FitsJournal v
        → v.locator_path ≡ locator
        → v.desktop_state ≡ desktop
        → v.replay_state ≡ replay
        → c.is_utf8 locator ≡ true
        → c.is_utf8 desktop ≡ true
        → c.is_utf8 replay ≡ true
        → decode_paths c x v.target
            (c.put_str locator ++ (c.put_str desktop ++ (c.put_str replay ++ [])))
          ≡ ok (v, [])
    read_paths v locator desktop replay f s1 s2 s3 t1 t2 t3 =
        let put = c.put_str in
        let read =
          decode_paths_lem v f (ap c.is_utf8 s1 ∙ t1) (ap c.is_utf8 s2 ∙ t2)
            (ap c.is_utf8 s3 ∙ t3) in
        let l = v.locator_path in
        let d = v.desktop_state in
        subst
          (λ p.
            decode_paths c x v.target (put p ++ (put desktop ++ (put replay ++ []))) ≡ ok (v, []))
          s1
          (subst
            (λ p. decode_paths c x v.target (put l ++ (put p ++ (put replay ++ []))) ≡ ok (v, []))
            s2
            (subst (λ p. decode_paths c x v.target (put l ++ (put d ++ (put p ++ []))) ≡ ok (v, []))
              s3 read))

    check_journal_lem :
        (paths : Paths) (v : CleanupJournal) (bytes : Bytes)
        → encode_journal c v ≡ ok bytes
        → paths_are_valid c x paths v ≡ true
        → check_journal c x paths true bytes [] v ≡ ok v
    unfolding check_journal
    check_journal_lem paths v bytes e valid = rw (e, bytes_eq_refl bytes, valid) refl

    decode_lem :
        (paths : Paths) (v : CleanupJournal) (rest target : Bytes)
        → decode_target c x target ≡ ok (v.target, rest)
        → decode_paths c x v.target rest ≡ ok (v, [])
        → check_journal c x paths true (c.put_array 6 ++ (c.put_u16 2 ++ target)) [] v ≡ ok v
        → decode_journal c x paths (c.put_array 6 ++ (c.put_u16 2 ++ target)) ≡ ok v
    unfolding decode_journal decode_as
    decode_lem paths v rest target e1 e2 e3 =
        rw
          (
            h.array_law 6 (c.put_u16 2 ++ target) (omega arith),
            h.u16_law 2 target (omega arith),
            e1,
            e2,
          )
          e3

    -- A journal whose parts have the sizes of their types, whose stub is read back from its bytes, and
    -- whose paths are absolute and end in a name is read back from what it is written as.
    pub decode_journal-encode_journal :
        (paths : Paths) (v : CleanupJournal) (bytes : Bytes)
        → FitsJournal v
        → paths_are_valid c x paths v ≡ true
        → encode_journal c v ≡ ok bytes
        → decode_journal c x paths bytes ≡ ok v
    unfolding encode_journal
    decode_journal-encode_journal paths v bytes f valid e =
        let P : Type 0 = decode_journal c x paths bytes ≡ ok v in
        ok_step P (encoded_path c v.locator_path) _
          (λ locator e1. ok_step P (encoded_path c v.desktop_state) _ (λ desktop e2.
            ok_step P (encoded_path c v.replay_state) _ (λ replay e3.
              let (s1, t1) = encoded_path_ok v.locator_path locator e1 in
              let (s2, t2) = encoded_path_ok v.desktop_state desktop e2 in
              let (s3, t3) = encoded_path_ok v.replay_state replay e3 in
              let rest = c.put_str locator ++ (c.put_str desktop ++ (c.put_str replay ++ [])) in
              let read : decode_paths c x v.target rest ≡ ok (v, []) =
                read_paths v locator desktop replay f s1 s2 s3 t1 t2 t3 in
              ok_step P (encode_target c v.target rest) _ (λ target e4 e5.
                let written = c.put_array 6 ++ (c.put_u16 2 ++ target) in
                let same = ok_injective written bytes (ok written) refl e5 in
                let checked = check_journal_lem paths v bytes e valid in
                subst (λ b. decode_journal c x paths b ≡ ok v) same
                  (decode_lem paths v rest target
                    (decode_target-encode_target v.target rest target f.target_fits e4) read
                    (subst (λ b. check_journal c x paths true b [] v ≡ ok v) (sym same)
                      checked))))))
          e
