-- ===== src/Pairing.antt =====
-- crates/desktop/src/pairing.rs: constants, errors and the public identity stub.
pub mod Stub
pub mod Lines
pub mod Session
use age_plugin_phone.Base.{
  ℕ, ◌*◌, Bool, Bytes, List, ◌∷◌, [], codes, map, leb, ltb, ◌&&◌, ◌++◌, ◌+◌, ◌-◌, ◌/◌, ◌%◌,
  if◌then◌else◌,
}

-- `PLUGIN_NAME` of crates/core/src/recipient/mod.rs.
abbrev pub plugin_name : Bytes
plugin_name = codes "phone"

abbrev pub stub_version : ℕ
stub_version = 2

abbrev pub max_pairing_session_age_ms : ℕ
max_pairing_session_age_ms = 5 * 60 * 1000

abbrev pub identity_hrp : Bytes
identity_hrp = codes "age-plugin-phone-"

pub data PairingError : Type 0 where
  session_closed timeout invalid_response fingerprint_mismatch malformed_stub : PairingError
  unsupported_stub stub_encoding state_missing state stub_storage : PairingError

pub data RecipientType : Type 0 where
  phone tag : RecipientType

pub record PublicIdentityStub : Type 0 where
  pub desktop_id : Bytes
  pub identity_id : Bytes
  pub recipient : Bytes
  pub desktop_signing_public_key : Bytes
  pub desktop_selection_public_key : Bytes
  pub phone_signing_public_key : Bytes
  pub offer_digest : Bytes
  pub transcript_fingerprint : Bytes

unfoldable pub to_ascii_uppercase : Bytes → Bytes
to_ascii_uppercase = map (λ b. if leb 97 b && leb b 122 then b - 32 else b)

-- `{:02x}` of each byte.
abbrev pub hex_digit : ℕ → ℕ
hex_digit n = if ltb n 10 then n + 48 else n + 87

unfoldable pub hex : Bytes → Bytes
hex [] = []
hex (b ∷ bytes) = hex_digit (b / 16 % 16) ∷ hex_digit (b % 16) ∷ hex bytes
