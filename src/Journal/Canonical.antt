-- ===== src/Journal/Canonical.antt =====
-- crates/desktop/src/cleanup_journal.rs: what is accepted as a journal.
use age_plugin_phone.Base.{
  ◌≡◌, refl, ap, ◌∙◌, ◌⊎◌, inl, inr, Bool, true, false, ◌&&◌, ◌||◌, Bytes, bytes_eq, bytes_eq_sound,
  length, ◌==◌, ok, ok_or, ensure, ensure-ok, ok_injective, ok_step, ok_after, &&-parts,
}
use mathlib.Core.Path.{subst}
use age_plugin_phone.Cbor.{Cbor}
use age_plugin_phone.Crypto.{Crypto}
use age_plugin_phone.Locator.{Paths}
use age_plugin_phone.Journal.{
  CleanupTarget, paired, orphan, CleanupJournal, invalid, encode_journal, encode_legacy, is_count,
  decode_as, encode_as, target_is_valid, paths_are_valid, check_journal, decode_journal,
}

module _ (c : Cbor) (x : Crypto) (paths : Paths) where
  -- A path that starts at a root and ends in a name.
  abbrev pub IsNamed : Bytes → Type 0
  IsNamed path = (paths.is_absolute path ≡ true) × (paths.has_file_name path ≡ true)

  abbrev pub IsNamedTarget : CleanupTarget → Type 0
  IsNamedTarget (paired stub stub_path) = IsNamed stub_path
  IsNamedTarget (orphan desktop identity fingerprint) = Unit

  -- What accepting a journal says of it.
  abbrev pub IsJournalOf : Bytes → CleanupJournal → Type 0
  IsJournalOf bytes v =
      ((encode_journal c v ≡ ok bytes) ⊎ (encode_legacy c v ≡ ok bytes))
      × IsNamed v.locator_path
      × IsNamed v.desktop_state
      × IsNamed v.replay_state
      × IsNamedTarget v.target

  named_target :
      (target : CleanupTarget) → target_is_valid c x paths target ≡ true → IsNamedTarget target
  named_target (paired stub stub_path) e = &&-parts _ _ e
  named_target (orphan desktop identity fingerprint) e = tt

  paths_are_valid-IsNamed :
      (v : CleanupJournal)
      → paths_are_valid c x paths v ≡ true
      → IsNamed v.locator_path
        × IsNamed v.desktop_state
        × IsNamed v.replay_state
        × IsNamedTarget v.target
  unfolding paths_are_valid
  paths_are_valid-IsNamed v e =
      let (locator, e1) = &&-parts _ _ e in
      let (desktop, e2) = &&-parts _ _ e1 in
      let (replay, target) = &&-parts _ _ e2 in
      (
        &&-parts _ _ locator,
        &&-parts _ _ desktop,
        &&-parts _ _ replay,
        named_target v.target target,
      )

  either_encoding :
      (current : Bool) (v : CleanupJournal) (bytes : Bytes)
      → encode_as c x current v ≡ ok bytes
      → (encode_journal c v ≡ ok bytes) ⊎ (encode_legacy c v ≡ ok bytes)
  either_encoding true v bytes e = inl e
  either_encoding false v bytes e = inr e

  check_journal_ok :
      (current : Bool) (bytes d : Bytes) (w v : CleanupJournal)
      → check_journal c x paths current bytes d w ≡ ok v
      → IsJournalOf bytes v
  unfolding check_journal
  check_journal_ok current bytes d w v =
      let P : Type 0 = IsJournalOf bytes v in
      ok_step P (encode_as c x current w) _ (λ canonical e1.
        ok_step P
          (ensure (length d == 0 && (bytes_eq canonical bytes && paths_are_valid c x paths w))
            invalid)
          _
          (λ u e2 e3.
            let (_, rest) = &&-parts _ _ (ensure-ok _ _ u e2) in
            let (same, valid) = &&-parts _ _ rest in
            let (locator, desktop, replay, target) = paths_are_valid-IsNamed w valid in
            subst (IsJournalOf bytes) (ok_injective w v (ok w) refl e3) (
              either_encoding current w bytes
                  (e1 ∙ ap (λ b. ok b) (bytes_eq_sound canonical bytes same)),
              locator,
              desktop,
              replay,
              target,
            )))

  -- What is accepted as a journal is an encoding of what is returned, the current or the older one, and
  -- each of its paths, that of a stub included, is absolute and ends in a name.
  pub decode_journal_sound :
      (bytes : Bytes) (v : CleanupJournal)
      → decode_journal c x paths bytes ≡ ok v
      → IsJournalOf bytes v
  unfolding decode_journal
  decode_journal_sound bytes v =
      let P : Type 0 = IsJournalOf bytes v in
      ok_after P (ok_or (c.get_array bytes) invalid) _ (λ n.
        ok_after P (ensure (is_count c 6 n.0) invalid) _ (λ _.
          ok_after P (ok_or (c.get_u16 n.1) invalid) _ (λ w.
            ok_after P (ensure (w.0 == 1 || w.0 == 2) invalid) _ (λ _.
              ok_after P (decode_as c x (w.0 == 2) w.1) _
                (λ r. check_journal_ok (w.0 == 2) bytes r.1 r.0 v)))))
