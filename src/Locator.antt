-- ===== src/Locator.antt =====
-- crates/desktop/src/locator.rs: the record that tells where the state of a pairing is. A path is the
-- list of its bytes, and what a platform makes of one is a parameter.
pub mod Records
pub mod Names
pub mod Opening
pub mod Pending
pub mod Opened
use age_plugin_phone.Base.{
  ℕ, Bool, true, false, not, any, ◌&&◌, ◌||◌, Option, some, none, List, [], ◌∷◌, ◌++◌, Bytes, codes,
  bytes_eq, length, ◌==◌, if◌then◌else◌, Result, ok, err, ok_or, ensure, refuse, ◌>>=◌, ◌>>◌,
}
use age_plugin_phone.Cbor.{Cbor}
use age_plugin_phone.Pairing.{PublicIdentityStub, hex}
use age_plugin_phone.Transport.Policy.{TransportChoice, auto, to_string, from_str}

-- `is_absolute`, whether there is a `file_name`, `parent`, and the equality of paths.
pub record Paths : Type 0 where
  pub is_absolute : Bytes → Bool
  pub has_file_name : Bytes → Bool
  pub parent : Bytes → Option Bytes
  pub path_eq : Bytes → Bytes → Bool

abbrev pub locator_version : ℕ
locator_version = 3

abbrev pub legacy_locator_version : ℕ
legacy_locator_version = 2

pub record PairingLocator : Type 0 where
  pub desktop_state : Bytes
  pub replay_state : Bytes
  pub transport : TransportChoice

pub record PairingLocatorRecord : Type 0 where
  pub desktop_id : Bytes
  pub identity_id : Bytes
  pub transcript_fingerprint : Bytes
  pub locator : PairingLocator

pub data LocatorError : Type 0 where
  config already_exists missing invalid cleanup_pending setup_pending storage : LocatorError

module _ (c : Cbor) where
  open c use {put_array, put_u16, put_bytes, put_str, get_array, get_u16, get_bytes, get_str}

  unfoldable pub encoded_locator_path : Bytes → Result LocatorError Bytes
  encoded_locator_path path = do
    ensure (c.is_utf8 path && not (any (λ b. b == 10) path)) invalid
    ok path

  -- What is written once both paths are texts.
  unfoldable pub record_bytes : PairingLocatorRecord → Bytes → Bytes → Bytes
  record_bytes found desktop replay =
      put_array 7
      ++ (put_u16 locator_version
          ++ (put_bytes found.desktop_id
              ++ (put_bytes found.identity_id
                  ++ (put_bytes found.transcript_fingerprint
                      ++ (put_str desktop
                          ++ (put_str replay
                              ++ (put_str (to_string found.locator.transport) ++ [])))))))

  unfoldable pub legacy_bytes : PairingLocatorRecord → Bytes → Bytes → Bytes
  legacy_bytes found desktop replay =
      put_array 6
      ++ (put_u16 legacy_locator_version
          ++ (put_bytes found.desktop_id
              ++ (put_bytes found.identity_id
                  ++ (put_bytes found.transcript_fingerprint
                      ++ (put_str desktop ++ (put_str replay ++ []))))))

  unfoldable pub encode_record : PairingLocatorRecord → Result LocatorError Bytes
  unfolding encoded_locator_path
  encode_record found = do
    desktop ← encoded_locator_path found.locator.desktop_state
    replay ← encoded_locator_path found.locator.replay_state
    ok (record_bytes found desktop replay)

  unfoldable pub encode_legacy_record : PairingLocatorRecord → Result LocatorError Bytes
  unfolding encoded_locator_path
  encode_legacy_record found = do
    desktop ← encoded_locator_path found.locator.desktop_state
    replay ← encoded_locator_path found.locator.replay_state
    ok (legacy_bytes found desktop replay)

  unfoldable pub encode : PublicIdentityStub → PairingLocator → Result LocatorError Bytes
  encode stub locator = encode_record (record {
    desktop_id = stub.desktop_id;
    identity_id = stub.identity_id;
    transcript_fingerprint = stub.transcript_fingerprint;
    locator = locator;
  })

  unfoldable pub fixed_bytes : ℕ → Bytes → Result LocatorError (Bytes × Bytes)
  fixed_bytes n d = do
    (bytes, d) ← ok_or (get_bytes d) invalid
    ensure (length bytes == n) invalid
    ok (bytes, d)

  -- The choice of a transport, which a legacy record does not have.
  unfoldable pub decode_transport : Bool → Bytes → Result LocatorError (TransportChoice × Bytes)
  decode_transport true d = do
    (text, d) ← ok_or (get_str d) invalid
    choice ← ok_or (from_str text) invalid
    ok (choice, d)
  decode_transport false d = ok (auto, d)

  abbrev pub encode_as : Bool → PairingLocatorRecord → Result LocatorError Bytes
  encode_as true = encode_record
  encode_as false = encode_legacy_record

  -- The number of fields and the version go together.
  unfoldable pub known_layout : Option ℕ → ℕ → Bool
  known_layout none version = false
  known_layout (some fields) version =
      (fields == 7 && version == locator_version)
      || (fields == 6 && version == legacy_locator_version)

  module _ (paths : Paths) where
    unfoldable pub check_record :
        Bool → Bytes → Bytes → PairingLocatorRecord → Result LocatorError PairingLocatorRecord
    check_record current bytes d found = do
      ensure (length d == 0) invalid
      canonical ← encode_as current found
      ensure (bytes_eq canonical bytes) invalid
      ensure (paths.is_absolute found.locator.desktop_state) invalid
      ensure (paths.is_absolute found.locator.replay_state) invalid
      ok found

    unfoldable pub decode_record : Bytes → Result LocatorError PairingLocatorRecord
    unfolding fixed_bytes decode_transport known_layout check_record
    decode_record bytes = do
      (fields, d) ← ok_or (get_array bytes) invalid
      (version, d) ← ok_or (get_u16 d) invalid
      ensure (known_layout fields version) invalid
      (desktop_id, d) ← fixed_bytes 16 d
      (identity_id, d) ← fixed_bytes 16 d
      (fingerprint, d) ← fixed_bytes 32 d
      (desktop, d) ← ok_or (get_str d) invalid
      (replay, d) ← ok_or (get_str d) invalid
      (transport, d) ← decode_transport (version == locator_version) d
      check_record (version == locator_version) bytes d (record {
        desktop_id = desktop_id;
        identity_id = identity_id;
        transcript_fingerprint = fingerprint;
        locator = record { desktop_state = desktop; replay_state = replay; transport = transport };
      })

    unfoldable pub decode : PublicIdentityStub → Bytes → Result LocatorError PairingLocator
    decode stub bytes = do
      kept ← decode_record bytes
      ensure
          (bytes_eq kept.desktop_id stub.desktop_id
            && (bytes_eq kept.identity_id stub.identity_id
                && bytes_eq kept.transcript_fingerprint stub.transcript_fingerprint))
          invalid
      ok kept.locator

-- The names of a locator file, and of one that was written before the desktop was part of the name.
unfoldable pub locator_name : PublicIdentityStub → Bytes
locator_name stub = hex stub.identity_id ++ (45 ∷ (hex stub.desktop_id ++ codes ".cbor"))

unfoldable pub legacy_locator_name : PublicIdentityStub → Bytes
legacy_locator_name stub = hex stub.identity_id ++ codes ".cbor"
