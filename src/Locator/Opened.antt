-- ===== src/Locator/Opened.antt =====
-- crates/desktop/src/locator.rs: when a pairing is opened.
use age_plugin_phone.Base.{
  ◌≡◌, ◌↔◌, refl, sym, ap, ◌∙◌, true, false, Option, some, none, List, [], ◌∷◌, Bytes, arith,
  Result, ok, err, ensure-ok, ok_step, &&-parts, ◌>>◌,
}
use age_plugin_phone.Cbor.{Cbor, IsCbor}
use age_plugin_phone.Pairing.{PublicIdentityStub}
use age_plugin_phone.Recipient.Stanza.{map_err}
use age_plugin_phone.Locator.{
  Paths, PairingLocator, LocatorError, cleanup_pending, setup_pending, encode, decode, locator_name,
  legacy_locator_name,
}
use age_plugin_phone.Locator.Records.{FitsRecord, AreAbsolute}
use age_plugin_phone.Locator.Names.{kept_for, decode-encode}
use age_plugin_phone.Locator.Opening.{
  Platform, windows, macos, unix, ensure_not_pending, read_optional, parent_is, validate_layout,
  opened, find_locator, open_pairing_locator_record,
}
use age_plugin_phone.Journal.{CleanupJournal, JournalError}
use age_plugin_phone.Setup
use age_plugin_phone.Setup.{SetupJournal, SetupError, candidate_is}
use age_plugin_phone.Locator.Pending.{
  IsTarget, ensure_not_pending-cleanup_pending, NoCleanup, NoSetup, ensure_not_pending_iff,
  setup_iff,
}

-- On macOS both files lie in the directory and are two.
abbrev pub IsLaidOut : Paths → Platform → Bytes → PairingLocator → Type 0
IsLaidOut paths macos root locator =
    ((parent : Bytes) × (paths.parent locator.desktop_state ≡ some parent)
      × (paths.path_eq parent root ≡ true))
    × ((parent : Bytes) × (paths.parent locator.replay_state ≡ some parent)
        × (paths.path_eq parent root ≡ true))
    × (paths.path_eq locator.desktop_state locator.replay_state ≡ false)
IsLaidOut paths windows root locator = Unit
IsLaidOut paths unix root locator = Unit

module _ (paths : Paths) where
  parent_is_iff :
      (o : Option Bytes) (root : Bytes)
      → (parent_is paths o root ≡ true)
        ↔ ((parent : Bytes) × (o ≡ some parent) × (paths.path_eq parent root ≡ true))
  unfolding parent_is
  parent_is_iff none root = (λ e. cc, λ (parent, e, same). cc)
  parent_is_iff (some parent) root = (
    λ e. (parent, refl, e),
    λ (parent', e, same).
        let named = ap (λ o. elim o as (λ o'. Bytes) [ none ↦ [] | some b ↦ b ]) e in rw named same,
  )

  validate_layout_iff :
      (platform : Platform) (root : Bytes) (locator : PairingLocator)
      → (validate_layout paths platform root locator ≡ ok tt)
        ↔ IsLaidOut paths platform root locator
  unfolding validate_layout
  validate_layout_iff windows root locator = (λ h. tt, λ h. refl)
  validate_layout_iff unix root locator = (λ h. tt, λ h. refl)
  validate_layout_iff macos root locator =
      let (d, d') = parent_is_iff (paths.parent locator.desktop_state) root in
      let (r, r') = parent_is_iff (paths.parent locator.replay_state) root in
      (
        λ h.
            let (a, rest) = &&-parts _ _ (ensure-ok _ _ tt h) in
            let (b, c) = &&-parts _ _ rest in (d a, r b, ground arith),
        λ (p, q, differ). (let a = d' p in let b = r' q in rw (a, b, differ) refl),
      )

module _ (c : Cbor) (h : IsCbor c) (paths : Paths) (platform : Platform) where
  find_locator_lem :
      (root : Bytes) (stub : PublicIdentityStub) (locator : PairingLocator) (bytes name : Bytes)
      (names : List Bytes) (read : Bytes → Result LocatorError Bytes)
      → decode c paths stub bytes ≡ ok locator
      → read name ≡ ok bytes
      → find_locator c paths platform root read stub (name ∷ names)
        ≡ (validate_layout paths platform root locator >> ok (name, locator))
  unfolding find_locator opened
  find_locator_lem root stub locator bytes name names read decoded held = rw (held, decoded) refl

  -- The directory passes its check and the file of the pairing holds the encoding of a locator with
  -- absolute paths and parts of the sizes of their types. Then, whatever the file of the older name
  -- holds, this locator is opened from this file exactly when the locator is laid out as the platform
  -- wants and, on Windows and macOS, both journals could be read and hold no cleanup and no setup of the
  -- pairing.
  pub open_pairing_locator_record-encode :
      (stub : PublicIdentityStub) (locator : PairingLocator) (bytes root : Bytes)
      (cleanup : Result JournalError (Option CleanupJournal))
      (setup : Result SetupError (Option SetupJournal)) (read : Bytes → Result LocatorError Bytes)
      → FitsRecord (kept_for c paths stub locator)
      → AreAbsolute paths locator
      → encode c stub locator ≡ ok bytes
      → read (locator_name stub) ≡ ok bytes
      → (open_pairing_locator_record c paths platform (ok root) cleanup setup read stub
          ≡ ok (locator_name stub, locator))
        ↔ (NoCleanup platform cleanup stub
            × NoSetup platform setup stub
            × IsLaidOut paths platform root locator)
  unfolding open_pairing_locator_record
  open_pairing_locator_record-encode stub locator bytes root cleanup setup read fits absolute e
        held =
      let P : Type 0 =
        NoCleanup platform cleanup stub
        × NoSetup platform setup stub
        × IsLaidOut paths platform root locator in
      let (cleaned, clean) = ensure_not_pending_iff platform cleanup stub in
      let (was_set, set_up) = setup_iff platform setup stub in
      let (laid, lay) = validate_layout_iff paths platform root locator in
      let decoded = decode-encode c paths h stub locator bytes fits absolute e in
      let found =
        find_locator_lem root stub locator bytes (locator_name stub) (legacy_locator_name stub ∷ [])
          read decoded held in
      let setup_check =
        map_err (Setup.ensure_pairing_available (read_optional platform setup) stub)
          setup_pending in
      (
        λ opens.
            ok_step P (ensure_not_pending platform cleanup stub) _
              (λ u e1. ok_step P setup_check _ (λ u' e2 e3.
                ok_step P (validate_layout paths platform root locator) _
                  (λ u'' e4 e5. (cleaned e1, was_set e2, laid e4)) (sym found ∙ e3)))
              opens,
        λ (k1, k2, k3). rw (clean k1, set_up k2, found, lay k3) refl,
      )

-- A readable cleanup journal of the pairing holds it back on Windows, with an error of its own, whatever
-- the setup and the files of locators are.
open_pairing_locator_record-cleanup_pending :
    (c : Cbor) (paths : Paths) (root : Bytes) (v : CleanupJournal)
    (setup : Result SetupError (Option SetupJournal)) (read : Bytes → Result LocatorError Bytes)
    (stub : PublicIdentityStub)
    → IsTarget v.target stub
    → open_pairing_locator_record c paths windows (ok root) (ok (some v)) setup read stub
      ≡ err cleanup_pending
unfolding open_pairing_locator_record
open_pairing_locator_record-cleanup_pending c paths root v setup read stub target =
    rw (ensure_not_pending-cleanup_pending v stub target) refl
