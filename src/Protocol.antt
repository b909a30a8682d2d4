-- ===== src/Protocol.antt =====
-- crates/core/src/protocol/mod.rs: constants, errors and messages. Identifiers, nonces, digests,
-- encoded keys and texts are byte strings.
pub mod Time
pub mod Signing
pub mod Encode
pub mod Decode
pub mod RoundTrip
pub mod Reading
pub mod Sizes
pub mod Messages
pub mod Exchange
use age_plugin_phone.Base.{ℕ, ◌^◌, ◌-◌, Option, Bytes}
use age_plugin_phone.Recipient.{TaggedStanza}

abbrev pub protocol_version : ℕ
protocol_version = 2

abbrev pub algorithm_suite : ℕ
algorithm_suite = 1

abbrev pub max_request_lifetime_secs : ℕ
max_request_lifetime_secs = 300

-- `i64::MAX`
abbrev pub max_protocol_time : ℕ
max_protocol_time = 2 ^ 63 - 1

abbrev pub max_signed_message_bytes : ℕ
max_signed_message_bytes = 65536

pub data Error : Type 0 where
  malformed unsupported_version unsupported_suite unexpected_message_type : Error
  invalid_public_key invalid_signature wrong_desktop wrong_identity expired : Error
  lifetime_too_long replay clock_rollback replay_capacity replay_state : Error
  invalid_recipient_stanza binding_mismatch decryption key_derivation key_operation : Error

pub record PairingOffer : Type 0 where
  pub desktop_id : Bytes
  pub desktop_label : Bytes
  pub desktop_signing_public_key : Bytes
  pub desktop_selection_public_key : Bytes
  pub nonce : Bytes

pub record PairingResponse : Type 0 where
  pub identity_id : Bytes
  pub recipient : Bytes
  pub phone_signing_public_key : Bytes
  pub offer_digest : Bytes
  pub nonce : Bytes

pub record UnwrapRequest : Type 0 where
  pub request_id : Bytes
  pub identity_id : Bytes
  pub desktop_id : Bytes
  pub session_public_key : Bytes
  pub recipient_stanza : TaggedStanza
  pub nonce : Bytes
  pub expires_at_unix : ℕ
  pub caller_hint : Option Bytes

pub record UnwrapResponse : Type 0 where
  pub request_id : Bytes
  pub request_digest : Bytes
  pub identity_id : Bytes
  pub desktop_id : Bytes
  pub phone_session_public_key : Bytes
  pub nonce : Bytes
  pub encrypted_file_key : Bytes

-- `SignedPairingOffer`, `SignedPairingResponse`, `SignedUnwrapRequest`, `SignedUnwrapResponse`.
pub record Signed (Payload : Type 0) : Type 0 where
  pub payload : Payload
  pub signature : Bytes

pub record PairingRecord : Type 0 where
  pub desktop_id : Bytes
  pub identity_id : Bytes
  pub desktop_signing_public_key : Bytes
  pub desktop_selection_public_key : Bytes
  pub phone_signing_public_key : Bytes

pub record VerifiedRequest : Type 0 where
  pub signed : Signed UnwrapRequest
  pub digest : Bytes
