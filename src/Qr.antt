-- ===== src/Qr.antt =====
-- crates/core/src/protocol/qr.rs: constants, errors and frames of the QR transfer.
pub mod Frames
pub mod Fragments
pub mod Reassembler
use age_plugin_phone.Base.{ℕ, Bytes, codes}

abbrev pub text_prefix : Bytes
text_prefix = codes "age-phone:qr1:"

abbrev pub frame_version : ℕ
frame_version = 1

abbrev pub frame_type : ℕ
frame_type = 1

abbrev pub max_encoded_frame_chars : ℕ
max_encoded_frame_chars = 2048

abbrev pub message_digest_domain : Bytes
message_digest_domain = codes "age-plugin-phone/qr-message-digest/v1"

abbrev pub default_qr_chunk_bytes : ℕ
default_qr_chunk_bytes = 600

abbrev pub max_qr_message_bytes : ℕ
max_qr_message_bytes = 65536

abbrev pub max_qr_fragments : ℕ
max_qr_fragments = 128

abbrev pub max_qr_assembly_age_ms : ℕ
max_qr_assembly_age_ms = 30000

pub data QrError : Type 0 where
  message_size chunk_size too_many_fragments malformed_frame unsupported_version : QrError
  unsupported_type different_transfer conflicting_fragment timeout clock_rollback : QrError
  digest_mismatch poisoned_assembly : QrError

pub record Frame : Type 0 where
  pub transfer_id : Bytes
  pub digest : Bytes
  pub index : ℕ
  pub count : ℕ
  pub total_len : ℕ
  pub chunk : Bytes
