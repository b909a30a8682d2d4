-- ===== src/Tests/Records.antt =====
-- A concrete locator and a concrete cleanup journal.
use age_plugin_phone.Base.{
  ◌≡◌, ◌↔◌, ◌<◌, ◌^◌, refl, Option, some, none, replicate, bytes_eq, if◌then◌else◌, Bool, true,
  false, [], ◌∷◌, Bytes, codes, length, leb, ◌==◌, Result, ok, value_of, arith,
}
use age_plugin_phone.Transport.Policy.{wifi}
use age_plugin_phone.Locator.{
  Paths, PairingLocator, LocatorError, encode, encode_record, encoded_locator_path, locator_name,
}
use age_plugin_phone.Locator.Opening.{windows, macos, open_pairing_locator_record}
use age_plugin_phone.Locator.Pending.{NoCleanup, NoSetup}
use age_plugin_phone.Locator.Opened.{IsLaidOut, open_pairing_locator_record-encode}
use age_plugin_phone.Setup.{SetupJournal, response_verified}
use age_plugin_phone.Locator.Records.{FitsRecord}
use age_plugin_phone.Locator.Names.{kept_for}
use age_plugin_phone.Journal.{
  paired, CleanupJournal, encode_journal, decode_journal, encode_target, encoded_path,
  paths_are_valid,
}
use age_plugin_phone.Journal.RoundTrip.{FitsJournal, decode_journal-encode_journal}
use age_plugin_phone.Journal.Canonical.{IsJournalOf, decode_journal_sound}
use age_plugin_phone.Protocol.Signing.{hash}
use age_plugin_phone.Protocol.Messages.{offer_digest, pairing_fingerprint}
use age_plugin_phone.Pairing.Stub.{encode_stub}
use age_plugin_phone.Pairing.Session.{stub_from_response}
use age_plugin_phone.Tests.Rfc8949.{rfc8949, rfc8949-IsCbor, big_endian}
use age_plugin_phone.Tests.Keys.{keyed, tally}
use age_plugin_phone.Tests.Pairings.{confirmed_stub, confirmed-Fits, confirmed_readable}

-- The paths of Unix: 47 is the slash.
abbrev starts_at_root : Bytes → Bool
starts_at_root [] = false
starts_at_root (b ∷ path) = b == 47

-- What stands before the last slash.
abbrev before_slash : Bytes → Option Bytes
before_slash [] = none
before_slash (b ∷ path) = elim (before_slash path) [
  | some parent ↦ some (b ∷ parent)
  | none ↦ if b == 47 then some [] else none
]

abbrev paths : Paths
paths = record {
  is_absolute = starts_at_root;
  has_file_name = λ path. leb 2 (length path);
  parent = before_slash;
  path_eq = bytes_eq;
}

abbrev some_locator : PairingLocator
some_locator = record {
  desktop_state = codes "/var/phone/desktop.key";
  replay_state = codes "/var/phone/replay.cbor";
  transport = wifi;
}

abbrev locator_bytes : Bytes
locator_bytes = value_of (encode rfc8949 confirmed_stub some_locator) []

locator_encoded : encode rfc8949 confirmed_stub some_locator ≡ ok locator_bytes
unfolding encode encode_record encoded_locator_path
locator_encoded = refl

-- Every file that is looked for holds the locator.
abbrev read_file : Bytes → Result LocatorError Bytes
read_file name = ok locator_bytes

kept-Fits : FitsRecord (kept_for rfc8949 paths confirmed_stub some_locator)
unfolding stub_from_response
kept-Fits = record {
  desktop_fits = confirmed-Fits.desktop_fits;
  identity_fits = confirmed-Fits.identity_fits;
  fingerprint_fits = confirmed-Fits.fingerprint_fits;
  state_fits = omega arith;
  replay_fits = omega arith;
}

abbrev some_journal : CleanupJournal
some_journal = record {
  target = paired confirmed_stub (codes "/home/a/phone.txt");
  locator_path = codes "/var/phone/locator.cbor";
  desktop_state = codes "/var/phone/desktop.key";
  replay_state = codes "/var/phone/replay.cbor";
}

abbrev journal_bytes : Bytes
journal_bytes = value_of (encode_journal rfc8949 some_journal) []

journal_encoded : encode_journal rfc8949 some_journal ≡ ok journal_bytes
unfolding encode_journal encode_target encoded_path
journal_encoded = refl

stub_size : length (encode_stub rfc8949 confirmed_stub) < 2 ^ 64
unfolding encode_stub big_endian tally stub_from_response offer_digest pairing_fingerprint hash
stub_size = omega arith

journal-Fits : FitsJournal rfc8949 keyed some_journal
journal-Fits = record {
  target_fits = (stub_size, confirmed_readable, omega arith);
  locator_fits = omega arith;
  desktop_fits = omega arith;
  replay_fits = omega arith;
}

journal_valid : paths_are_valid rfc8949 keyed paths some_journal ≡ true
unfolding paths_are_valid
journal_valid = refl

journal_read : decode_journal rfc8949 keyed paths journal_bytes ≡ ok some_journal
journal_read =
    decode_journal-encode_journal rfc8949 keyed rfc8949-IsCbor paths some_journal journal_bytes
      journal-Fits journal_valid journal_encoded

decode_journal-encode_journal_example :
    decode_journal rfc8949 keyed paths journal_bytes ≡ ok some_journal
decode_journal-encode_journal_example =
    decode_journal-encode_journal rfc8949 keyed rfc8949-IsCbor paths some_journal journal_bytes
      journal-Fits journal_valid journal_encoded

decode_journal_sound_example : IsJournalOf rfc8949 keyed paths journal_bytes some_journal
decode_journal_sound_example =
    decode_journal_sound rfc8949 keyed paths journal_bytes some_journal journal_read

-- A setup of another pairing is pending, and no cleanup.
abbrev other_setup : SetupJournal
other_setup = record {
  explicit_paths = false;
  stage = response_verified;
  setup_code = replicate 16 1;
  desktop_id = replicate 16 2;
  desktop_state = codes "/var/phone/desktop.key";
  replay_state = codes "/var/phone/replay.cbor";
  identity_stub = codes "/var/phone/phone.txt";
  transport = wifi;
  candidate = some (record confirmed_stub { desktop_id = replicate 16 2 });
}

open_pairing_locator_record-encode_example :
    (open_pairing_locator_record rfc8949 paths macos
        (ok (codes "/var/phone"))
        (ok none)
        (ok (some other_setup))
        read_file
        confirmed_stub
      ≡ ok (locator_name confirmed_stub, some_locator))
    ↔ (NoCleanup macos (ok none) confirmed_stub
        × NoSetup macos (ok (some other_setup)) confirmed_stub
        × IsLaidOut paths macos (codes "/var/phone") some_locator)
open_pairing_locator_record-encode_example =
    open_pairing_locator_record-encode rfc8949 rfc8949-IsCbor paths macos confirmed_stub
      some_locator locator_bytes (codes "/var/phone") (ok none) (ok (some other_setup)) read_file
      kept-Fits (refl, refl) locator_encoded refl

-- The pairing is opened on Windows, where nothing is pending.
opened_pairing :
    open_pairing_locator_record rfc8949 paths windows
      (ok (codes "/var/phone"))
      (ok none)
      (ok none)
      read_file
      confirmed_stub
    ≡ ok (locator_name confirmed_stub, some_locator)
opened_pairing =
    (open_pairing_locator_record-encode rfc8949 rfc8949-IsCbor paths windows confirmed_stub
        some_locator locator_bytes (codes "/var/phone") (ok none) (ok none) read_file kept-Fits
        (refl, refl) locator_encoded refl).1
      (tt, tt, tt)

laid_out : IsLaidOut paths macos (codes "/var/phone") some_locator
unfolding bytes_eq
laid_out = ((codes "/var/phone", refl, refl), (codes "/var/phone", refl, refl), refl)
