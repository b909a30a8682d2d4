-- ===== src/Locator/Pending.antt =====
-- crates/desktop/src/locator.rs: which pairings a pending cleanup or setup holds back.
use age_plugin_phone.Base.{
  ◌≡◌, ◌↔◌, refl, Bool, true, false, ◌&&◌, Bool-cases, inl, inr, Option, some, none, Bytes,
  bytes_eq, bytes_eq_iff, arith, Result, ok, err, refuse, &&-parts,
}
use age_plugin_phone.Pairing.{PublicIdentityStub}
use age_plugin_phone.Recipient.Stanza.{map_err}
use age_plugin_phone.Locator.{cleanup_pending, setup_pending}
use age_plugin_phone.Locator.Opening.{
  Platform, windows, macos, unix, cleanup_available, locator_error, as_locator_error,
  ensure_not_pending, read_optional,
}
use age_plugin_phone.Journal
use age_plugin_phone.Journal.{CleanupTarget, paired, orphan, CleanupJournal, JournalError}
use age_plugin_phone.Setup
use age_plugin_phone.Setup.{SetupJournal, SetupError, candidate_is}

-- The three values that tell a pairing are those of the stub.
abbrev pub OfPairing : Bytes → Bytes → Bytes → PublicIdentityStub → Type 0
OfPairing desktop identity fingerprint stub =
    (desktop ≡ stub.desktop_id)
    × (identity ≡ stub.identity_id)
    × (fingerprint ≡ stub.transcript_fingerprint)

abbrev pub IsTarget : CleanupTarget → PublicIdentityStub → Type 0
IsTarget (paired of path) stub =
    OfPairing of.desktop_id of.identity_id of.transcript_fingerprint stub
IsTarget (orphan desktop identity fingerprint) stub = OfPairing desktop identity fingerprint stub

-- No cleanup of the pairing is pending: there is no journal, or a readable one of another pairing.
abbrev pub NoCleanup :
    Platform → Result JournalError (Option CleanupJournal) → PublicIdentityStub → Type 0
NoCleanup unix cleanup stub = Unit
NoCleanup _ (err e) stub = ⊥
NoCleanup _ (ok none) stub = Unit
NoCleanup _ (ok (some v)) stub = ¬ IsTarget v.target stub

abbrev pub IsCandidate : Option PublicIdentityStub → PublicIdentityStub → Type 0
IsCandidate none stub = ⊥
IsCandidate (some of) stub = OfPairing of.desktop_id of.identity_id of.transcript_fingerprint stub

-- The same of a setup, whose journal may have no candidate.
abbrev pub NoSetup :
    Platform → Result SetupError (Option SetupJournal) → PublicIdentityStub → Type 0
NoSetup unix setup stub = Unit
NoSetup _ (err e) stub = ⊥
NoSetup _ (ok none) stub = Unit
NoSetup _ (ok (some v)) stub = ¬ IsCandidate v.candidate stub

journal_refuse_iff :
    (test : Bool) (reason : JournalError)
    → (as_locator_error (refuse test reason) ≡ ok tt) ↔ (test ≡ false)
unfolding as_locator_error
journal_refuse_iff true reason = (λ h. cc, λ e. cc)
journal_refuse_iff false reason = (λ h. refl, λ e. refl)

setup_refuse_iff :
    (test : Bool) (reason : SetupError)
    → (map_err (refuse test reason) setup_pending ≡ ok tt) ↔ (test ≡ false)
setup_refuse_iff true reason = (λ h. cc, λ e. cc)
setup_refuse_iff false reason = (λ h. refl, λ e. refl)

OfPairing-iff :
    (desktop identity fingerprint : Bytes) (stub : PublicIdentityStub)
    → ((bytes_eq desktop stub.desktop_id
          && (bytes_eq identity stub.identity_id
              && bytes_eq fingerprint stub.transcript_fingerprint))
        ≡ false)
      ↔ (¬ OfPairing desktop identity fingerprint stub)
OfPairing-iff desktop identity fingerprint stub =
    let (d, d') = bytes_eq_iff desktop stub.desktop_id in
    let (i, i') = bytes_eq_iff identity stub.identity_id in
    let (f, f') = bytes_eq_iff fingerprint stub.transcript_fingerprint in
    let test =
      bytes_eq desktop stub.desktop_id
      && (bytes_eq identity stub.identity_id && bytes_eq fingerprint stub.transcript_fingerprint) in
    (
      λ e (p, q, r). (let a = d' p in let b = i' q in let c = f' r in ground arith),
      λ apart. elim (Bool-cases test) [
        | inl hit ↦
            let (a, rest) = &&-parts (bytes_eq desktop stub.desktop_id) _ hit in
            let (b, c) = &&-parts (bytes_eq identity stub.identity_id) _ rest in
            absurd (apart (d a, i b, f c))
        | inr miss ↦ miss
      ],
    )

IsTarget-iff :
    (target : CleanupTarget) (stub : PublicIdentityStub)
    → ((bytes_eq (Journal.desktop_id target) stub.desktop_id
          && (bytes_eq (Journal.identity_id target) stub.identity_id
              && bytes_eq (Journal.transcript_fingerprint target) stub.transcript_fingerprint))
        ≡ false)
      ↔ (¬ IsTarget target stub)
unfolding Journal.desktop_id Journal.identity_id Journal.transcript_fingerprint
IsTarget-iff (paired of path) stub =
    OfPairing-iff of.desktop_id of.identity_id of.transcript_fingerprint stub
IsTarget-iff (orphan desktop identity fingerprint) stub =
    OfPairing-iff desktop identity fingerprint stub

IsCandidate-iff :
    (candidate : Option PublicIdentityStub) (stub : PublicIdentityStub)
    → (candidate_is candidate stub ≡ false) ↔ (¬ IsCandidate candidate stub)
unfolding candidate_is
IsCandidate-iff none stub = (λ e h. h, λ h. refl)
IsCandidate-iff (some of) stub =
    OfPairing-iff of.desktop_id of.identity_id of.transcript_fingerprint stub

journal_iff :
    (cleanup : Result JournalError (Option CleanupJournal)) (stub : PublicIdentityStub)
    → (as_locator_error (Journal.ensure_pairing_available cleanup stub) ≡ ok tt)
      ↔ NoCleanup windows cleanup stub
unfolding as_locator_error Journal.ensure_pairing_available Journal.targets
journal_iff (err e) stub = (λ h. cc, λ h. absurd h)
journal_iff (ok none) stub = (λ h. tt, λ h. refl)
journal_iff (ok (some v)) stub =
    let (refused, passed) = journal_refuse_iff (Journal.targets v stub) Journal.pending in
    let (f, g) = IsTarget-iff v.target stub in (λ h. f (refused h), λ h. passed (g h))

pub ensure_not_pending_iff :
    (platform : Platform) (cleanup : Result JournalError (Option CleanupJournal))
    (stub : PublicIdentityStub)
    → (ensure_not_pending platform cleanup stub ≡ ok tt) ↔ NoCleanup platform cleanup stub
unfolding ensure_not_pending cleanup_available as_locator_error
ensure_not_pending_iff unix cleanup stub = (λ h. tt, λ h. refl)
ensure_not_pending_iff windows cleanup stub = journal_iff cleanup stub
ensure_not_pending_iff macos (err e) stub = journal_iff (err e) stub
ensure_not_pending_iff macos (ok none) stub = journal_iff (ok none) stub
ensure_not_pending_iff macos (ok (some v)) stub = journal_iff (ok (some v)) stub

setup_journal_iff :
    (setup : Result SetupError (Option SetupJournal)) (stub : PublicIdentityStub)
    → (map_err (Setup.ensure_pairing_available setup stub) setup_pending ≡ ok tt)
      ↔ NoSetup windows setup stub
unfolding Setup.ensure_pairing_available Setup.targets
setup_journal_iff (err e) stub = (λ h. cc, λ h. absurd h)
setup_journal_iff (ok none) stub = (λ h. tt, λ h. refl)
setup_journal_iff (ok (some v)) stub =
    let (refused, passed) = setup_refuse_iff (candidate_is v.candidate stub) Setup.pending in
    let (f, g) = IsCandidate-iff v.candidate stub in (λ h. f (refused h), λ h. passed (g h))

pub setup_iff :
    (platform : Platform) (setup : Result SetupError (Option SetupJournal))
    (stub : PublicIdentityStub)
    → (map_err (Setup.ensure_pairing_available (read_optional platform setup) stub) setup_pending
        ≡ ok tt)
      ↔ NoSetup platform setup stub
unfolding read_optional Setup.ensure_pairing_available
setup_iff unix setup stub = (λ h. tt, λ h. refl)
setup_iff windows setup stub = setup_journal_iff setup stub
setup_iff macos (err e) stub = setup_journal_iff (err e) stub
setup_iff macos (ok none) stub = setup_journal_iff (ok none) stub
setup_iff macos (ok (some v)) stub = setup_journal_iff (ok (some v)) stub

pub ensure_not_pending-cleanup_pending :
    (v : CleanupJournal) (stub : PublicIdentityStub)
    → IsTarget v.target stub
    → ensure_not_pending windows (ok (some v)) stub ≡ err cleanup_pending
unfolding ensure_not_pending cleanup_available as_locator_error locator_error
    Journal.ensure_pairing_available Journal.targets
ensure_not_pending-cleanup_pending v stub target = elim (Bool-cases (Journal.targets v stub)) [
  | inl hit ↦ rw hit refl
  | inr miss ↦ absurd ((IsTarget-iff v.target stub).0 miss target)
]
