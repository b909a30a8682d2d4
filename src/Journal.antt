-- ===== src/Journal.antt =====
-- crates/desktop/src/cleanup_journal.rs: the journal of a cleanup, as it is written and read.
pub mod RoundTrip
pub mod Canonical
use age_plugin_phone.Base.{
  ℕ, Bool, true, false, not, any, ◌&&◌, ◌||◌, Option, some, none, List, [], ◌∷◌, ◌++◌, Bytes,
  bytes_eq, length, ◌==◌, if◌then◌else◌, Result, ok, err, ok_or, ensure, refuse, ◌>>=◌, ◌>>◌,
}
use age_plugin_phone.Cbor.{Cbor}
use age_plugin_phone.Crypto.{Crypto}
use age_plugin_phone.Recipient.Stanza.{map_err}
use age_plugin_phone.Pairing.{PublicIdentityStub}
use age_plugin_phone.Pairing.Stub.{encode_stub, decode_stub}
use age_plugin_phone.Locator.{Paths}

abbrev pub legacy_journal_version : ℕ
legacy_journal_version = 1

abbrev pub journal_version : ℕ
journal_version = 2

abbrev pub paired_target : ℕ
paired_target = 1

abbrev pub orphan_target : ℕ
orphan_target = 2

pub data CleanupTarget : Type 0 where
  -- The stub and the path of its file.
  paired : PublicIdentityStub → Bytes → CleanupTarget
  -- The identifiers of the desktop and of the identity, and the fingerprint.
  orphan : Bytes → Bytes → Bytes → CleanupTarget

pub record CleanupJournal : Type 0 where
  pub target : CleanupTarget
  pub locator_path : Bytes
  pub desktop_state : Bytes
  pub replay_state : Bytes

pub data JournalError : Type 0 where
  invalid pending storage : JournalError

unfoldable pub desktop_id : CleanupTarget → Bytes
desktop_id (paired stub stub_path) = stub.desktop_id
desktop_id (orphan desktop identity fingerprint) = desktop

unfoldable pub identity_id : CleanupTarget → Bytes
identity_id (paired stub stub_path) = stub.identity_id
identity_id (orphan desktop identity fingerprint) = identity

unfoldable pub transcript_fingerprint : CleanupTarget → Bytes
transcript_fingerprint (paired stub stub_path) = stub.transcript_fingerprint
transcript_fingerprint (orphan desktop identity fingerprint) = fingerprint

unfoldable pub targets : CleanupJournal → PublicIdentityStub → Bool
unfolding desktop_id identity_id transcript_fingerprint
targets v stub =
    bytes_eq (desktop_id v.target) stub.desktop_id
    && (bytes_eq (identity_id v.target) stub.identity_id
        && bytes_eq (transcript_fingerprint v.target) stub.transcript_fingerprint)

module _ (c : Cbor) where
  open c use {put_array, put_u16, put_bytes, put_str, get_array, get_u16, get_bytes, get_str}

  -- No line feed, carriage return or zero byte.
  unfoldable pub encoded_path : Bytes → Result JournalError Bytes
  encoded_path path = do
    ensure (c.is_utf8 path && not (any (λ b. b == 10 || (b == 13 || b == 0)) path)) invalid
    ok path

  -- What stands for the target, and what follows it.
  unfoldable pub encode_target : CleanupTarget → Bytes → Result JournalError Bytes
  unfolding encoded_path
  encode_target (paired stub stub_path) rest = do
    path ← encoded_path stub_path
    ok (
        put_u16 paired_target
        ++ (put_array 2 ++ (put_bytes (encode_stub c stub) ++ (put_str path ++ rest))))
  encode_target (orphan desktop identity fingerprint) rest = ok (
      put_u16 orphan_target
      ++ (put_array 3
          ++ (put_bytes desktop ++ (put_bytes identity ++ (put_bytes fingerprint ++ rest)))))

  unfoldable pub encode_journal : CleanupJournal → Result JournalError Bytes
  unfolding encoded_path encode_target
  encode_journal v = do
    locator ← encoded_path v.locator_path
    desktop ← encoded_path v.desktop_state
    replay ← encoded_path v.replay_state
    target ← encode_target v.target (put_str locator ++ (put_str desktop ++ (put_str replay ++ [])))
    ok (put_array 6 ++ (put_u16 journal_version ++ target))

  -- Only a paired target has an older form.
  unfoldable pub encode_legacy_paths :
      CleanupJournal → PublicIdentityStub → Bytes → Result JournalError Bytes
  unfolding encoded_path
  encode_legacy_paths v stub stub_path = do
    path ← encoded_path stub_path
    locator ← encoded_path v.locator_path
    desktop ← encoded_path v.desktop_state
    replay ← encoded_path v.replay_state
    ok (
        put_array 6
        ++ (put_u16 legacy_journal_version
            ++ (put_bytes (encode_stub c stub)
                ++ (put_str path
                    ++ (put_str locator ++ (put_str desktop ++ (put_str replay ++ [])))))))

  unfoldable pub encode_legacy : CleanupJournal → Result JournalError Bytes
  unfolding encode_legacy_paths
  encode_legacy v = elim v.target [
    | paired stub stub_path ↦ encode_legacy_paths v stub stub_path
    | orphan desktop identity fingerprint ↦ err invalid
  ]

  unfoldable pub fixed_bytes : ℕ → Bytes → Result JournalError (Bytes × Bytes)
  fixed_bytes n d = do
    (bytes, d) ← ok_or (get_bytes d) invalid
    ensure (length bytes == n) invalid
    ok (bytes, d)

  abbrev pub is_count : ℕ → Option ℕ → Bool
  is_count n none = false
  is_count n (some m) = m == n

module _ (c : Cbor) (x : Crypto) where
  open c use {get_array, get_u16, get_bytes, get_str}

  unfoldable pub decode_paired : Bytes → Result JournalError (CleanupTarget × Bytes)
  decode_paired d = do
    (encoded, d) ← ok_or (get_bytes d) invalid
    stub ← map_err (decode_stub c x encoded) invalid
    (stub_path, d) ← ok_or (get_str d) invalid
    ok (paired stub stub_path, d)

  unfoldable pub decode_orphan : Bytes → Result JournalError (CleanupTarget × Bytes)
  unfolding fixed_bytes
  decode_orphan d = do
    (desktop, d) ← fixed_bytes c 16 d
    (identity, d) ← fixed_bytes c 16 d
    (fingerprint, d) ← fixed_bytes c 32 d
    ok (orphan desktop identity fingerprint, d)

  -- The target of a journal of the current version.
  unfoldable pub decode_target : Bytes → Result JournalError (CleanupTarget × Bytes)
  unfolding decode_paired decode_orphan
  decode_target d = do
    (kind, d) ← ok_or (get_u16 d) invalid
    ensure (kind == paired_target || kind == orphan_target) invalid
    (count, d) ← ok_or (get_array d) invalid
    ensure (is_count c (if kind == paired_target then 2 else 3) count) invalid
    if kind == paired_target then decode_paired d else decode_orphan d

  -- The three paths behind a target.
  unfoldable pub decode_paths : CleanupTarget → Bytes → Result JournalError (CleanupJournal × Bytes)
  decode_paths target d = do
    (locator, d) ← ok_or (get_str d) invalid
    (desktop, d) ← ok_or (get_str d) invalid
    (replay, d) ← ok_or (get_str d) invalid
    ok (
      record {
        target = target;
        locator_path = locator;
        desktop_state = desktop;
        replay_state = replay;
      },
      d,
    )

  -- `decode_legacy` and `decode_current`, with the encoder of the same version.
  unfoldable pub decode_as : Bool → Bytes → Result JournalError (CleanupJournal × Bytes)
  unfolding decode_target decode_paths
  decode_as true d = do (target, d) ← decode_target d; decode_paths target d
  decode_as false d = do (target, d) ← decode_paired d; decode_paths target d

  abbrev pub encode_as : Bool → CleanupJournal → Result JournalError Bytes
  encode_as true = encode_journal c
  encode_as false = encode_legacy c

  module _ (paths : Paths) where
    abbrev pub is_named : Bytes → Bool
    is_named path = paths.is_absolute path && paths.has_file_name path

    abbrev pub target_is_valid : CleanupTarget → Bool
    target_is_valid (paired stub stub_path) = is_named stub_path
    target_is_valid (orphan desktop identity fingerprint) = true

    unfoldable pub paths_are_valid : CleanupJournal → Bool
    paths_are_valid v =
        is_named v.locator_path
        && (is_named v.desktop_state && (is_named v.replay_state && target_is_valid v.target))

    unfoldable pub check_journal :
        Bool → Bytes → Bytes → CleanupJournal → Result JournalError CleanupJournal
    check_journal current bytes d v = do
      canonical ← encode_as current v
      ensure (length d == 0 && (bytes_eq canonical bytes && paths_are_valid v)) invalid
      ok v

    unfoldable pub decode_journal : Bytes → Result JournalError CleanupJournal
    unfolding decode_as check_journal
    decode_journal bytes = do
      (count, d) ← ok_or (get_array bytes) invalid
      ensure (is_count c 6 count) invalid
      (version, d) ← ok_or (get_u16 d) invalid
      ensure (version == legacy_journal_version || version == journal_version) invalid
      (v, d) ← decode_as (version == journal_version) d
      check_journal (version == journal_version) bytes d v

    -- `read` on Windows, given what the file holds: `none` is a file that is missing.
    unfoldable pub read_journal :
        Result JournalError (Option Bytes) → Result JournalError (Option CleanupJournal)
    read_journal (err e) = err invalid
    read_journal (ok none) = ok none
    read_journal (ok (some bytes)) = do v ← decode_journal bytes; ok (some v)

-- `ensure_pairing_available` on Windows and macOS, given what `read` returns.
unfoldable pub ensure_pairing_available :
    Result JournalError (Option CleanupJournal)
    → PublicIdentityStub
    → Result JournalError (Unit {0})
unfolding targets
ensure_pairing_available (err e) stub = err e
ensure_pairing_available (ok none) stub = ok tt
ensure_pairing_available (ok (some v)) stub = refuse (targets v stub) pending
