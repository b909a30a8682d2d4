-- ===== src/Locator/Opening.antt =====
-- crates/desktop/src/locator.rs: a pairing is opened. What the platform makes of the directory, and what the
-- two journals and the files of locators hold, are arguments.
use age_plugin_phone.Base.{
  Bool, false, not, ◌&&◌, Option, some, none, List, [], ◌∷◌, Bytes, Result, ok, err, ensure, ◌>>=◌,
  ◌>>◌,
}
use age_plugin_phone.Cbor.{Cbor}
use age_plugin_phone.Pairing.{PublicIdentityStub}
use age_plugin_phone.Recipient.Stanza.{map_err}
use age_plugin_phone.Locator.{
  Paths, PairingLocator, LocatorError, missing, invalid, cleanup_pending, setup_pending, decode,
  locator_name, legacy_locator_name,
}
use age_plugin_phone.Journal
use age_plugin_phone.Journal.{CleanupJournal, JournalError}
use age_plugin_phone.Setup
use age_plugin_phone.Setup.{SetupJournal, SetupError}

-- The systems that the code is compiled for.
pub data Platform : Type 0 where
  windows macos unix : Platform

-- There is a journal of a cleanup on Windows and macOS only.
unfoldable pub cleanup_available :
    Platform
    → Result JournalError (Option CleanupJournal)
    → PublicIdentityStub
    → Result JournalError (Unit {0})
unfolding Journal.ensure_pairing_available
cleanup_available unix cleanup stub = ok tt
cleanup_available windows cleanup stub = Journal.ensure_pairing_available cleanup stub
cleanup_available macos cleanup stub = Journal.ensure_pairing_available cleanup stub

unfoldable pub locator_error : JournalError → LocatorError
locator_error Journal.pending = cleanup_pending
locator_error Journal.invalid = invalid
locator_error Journal.storage = invalid

-- `result.map_err(locator_error)`
unfoldable pub as_locator_error : Result JournalError (Unit {0}) → Result LocatorError (Unit {0})
unfolding locator_error
as_locator_error (ok u) = ok u
as_locator_error (err e) = err (locator_error e)

unfoldable pub ensure_not_pending :
    Platform
    → Result JournalError (Option CleanupJournal)
    → PublicIdentityStub
    → Result LocatorError (Unit {0})
unfolding cleanup_available as_locator_error
ensure_not_pending platform cleanup stub =
    as_locator_error (cleanup_available platform cleanup stub)

-- `setup::read_optional`, which finds nothing outside of Windows and macOS.
unfoldable pub read_optional :
    Platform → Result SetupError (Option SetupJournal) → Result SetupError (Option SetupJournal)
read_optional unix setup = ok none
read_optional windows setup = setup
read_optional macos setup = setup

module _ (paths : Paths) where
  unfoldable pub parent_is : Option Bytes → Bytes → Bool
  parent_is none root = false
  parent_is (some parent) root = paths.path_eq parent root

  unfoldable pub validate_layout :
      Platform → Bytes → PairingLocator → Result LocatorError (Unit {0})
  unfolding parent_is
  validate_layout macos root locator =
      ensure
        (parent_is (paths.parent locator.desktop_state) root
          && (parent_is (paths.parent locator.replay_state) root
              && not (paths.path_eq locator.desktop_state locator.replay_state)))
        invalid
  validate_layout windows root locator = ok tt
  validate_layout unix root locator = ok tt

module _ (c : Cbor) (paths : Paths) (platform : Platform) where
  -- One turn of the loop over both names: a file that is missing leaves it to the rest.
  unfoldable pub opened :
      Bytes
      → PublicIdentityStub
      → Bytes
      → Result LocatorError Bytes
      → Result LocatorError (Bytes × PairingLocator)
      → Result LocatorError (Bytes × PairingLocator)
  unfolding validate_layout
  opened directory stub name (err missing) rest = rest
  opened directory stub name (ok bytes) rest = do
    locator ← decode c paths stub bytes
    validate_layout paths platform directory locator
    ok (name, locator)
  opened directory stub name (err e) rest = err e

  unfoldable pub find_locator :
      Bytes
      → (Bytes → Result LocatorError Bytes)
      → PublicIdentityStub
      → List Bytes
      → Result LocatorError (Bytes × PairingLocator)
  unfolding opened
  find_locator directory read stub [] = err missing
  find_locator directory read stub (name ∷ names) =
      opened directory stub name (read name) (find_locator directory read stub names)

  -- The name of the file stands for its path in the directory.
  unfoldable pub open_pairing_locator_record :
      Result LocatorError Bytes
      → Result JournalError (Option CleanupJournal)
      → Result SetupError (Option SetupJournal)
      → (Bytes → Result LocatorError Bytes)
      → PublicIdentityStub
      → Result LocatorError (Bytes × PairingLocator)
  unfolding find_locator ensure_not_pending read_optional Setup.ensure_pairing_available
  open_pairing_locator_record checked cleanup setup read stub = do
    directory ← checked
    ensure_not_pending platform cleanup stub
    map_err (Setup.ensure_pairing_available (read_optional platform setup) stub) setup_pending
    find_locator directory read stub (locator_name stub ∷ legacy_locator_name stub ∷ [])

  unfoldable pub open_pairing_locator :
      Result LocatorError Bytes
      → Result JournalError (Option CleanupJournal)
      → Result SetupError (Option SetupJournal)
      → (Bytes → Result LocatorError Bytes)
      → PublicIdentityStub
      → Result LocatorError PairingLocator
  unfolding open_pairing_locator_record
  open_pairing_locator checked cleanup setup read stub = do
    (path, locator) ← open_pairing_locator_record checked cleanup setup read stub
    ok locator

  -- A setup that is pending does not hold back its own pairing.
  unfoldable pub open_pairing_locator_for_setup :
      Result LocatorError Bytes
      → Result JournalError (Option CleanupJournal)
      → (Bytes → Result LocatorError Bytes)
      → PublicIdentityStub
      → Result LocatorError PairingLocator
  unfolding find_locator ensure_not_pending
  open_pairing_locator_for_setup checked cleanup read stub = do
    directory ← checked
    ensure_not_pending platform cleanup stub
    (path, locator) ←
        find_locator directory read stub (locator_name stub ∷ legacy_locator_name stub ∷ [])
    ok locator
