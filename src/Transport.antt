-- ===== src/Transport.antt =====
-- crates/desktop/src/transport.rs: one request and one response over a byte stream. The stream is a
-- parameter: an object of `Read` and `Write`.
pub mod Stream
pub mod Messages
pub mod Policy
use age_plugin_phone.Base.{
  ℕ, ◌+◌, ◌*◌, ◌^◌, ◌/◌, ◌%◌, Bool, true, false, ◌&&◌, ◌||◌, not, Option, some, none, List, [], ◌∷◌,
  ◌++◌, Bytes, codes, bytes_eq, length, take, drop, ltb, leb, ◌==◌, if◌then◌else◌, Result, ok, err,
  ok_or, ensure, refuse, ◌>>=◌, ◌>>◌,
}

abbrev pub magic : Bytes
magic = codes "APTS"

abbrev pub header_len : ℕ
header_len = 28

abbrev pub stream_version : ℕ
stream_version = 1

pub data SessionPurpose : Type 0 where
  pairing unwrap : SessionPurpose

-- `purpose as u8` and `direction as u8`
abbrev pub purpose_byte : SessionPurpose → ℕ
purpose_byte pairing = 1
purpose_byte unwrap = 2

pub data Direction : Type 0 where
  desktop_request phone_response : Direction

abbrev pub direction_byte : Direction → ℕ
direction_byte desktop_request = 1
direction_byte phone_response = 2

pub record TransportLimits : Type 0 where
  pub max_message_bytes : ℕ

pub data TransportError : Type 0 where
  session_closed message_too_large io invalid_frame : TransportError

-- `to_be_bytes` and `from_be_bytes`
unfoldable pub u16_to_be : ℕ → Bytes
u16_to_be n = ((n / 2 ^ 8) % 2 ^ 8) ∷ (n % 2 ^ 8) ∷ []

unfoldable pub u32_to_be : ℕ → Bytes
u32_to_be n =
    ((n / 2 ^ 24) % 2 ^ 8) ∷ ((n / 2 ^ 16) % 2 ^ 8) ∷ ((n / 2 ^ 8) % 2 ^ 8) ∷ (n % 2 ^ 8) ∷ []

unfoldable pub u32_from_be : Bytes → Option ℕ
u32_from_be (a ∷ b ∷ c ∷ d ∷ []) = some (a * 2 ^ 24 + b * 2 ^ 16 + c * 2 ^ 8 + d)
u32_from_be _ = none

unfoldable pub frame_header : SessionPurpose → Direction → Bytes → ℕ → Bytes
unfolding u16_to_be u32_to_be
frame_header purpose direction session_id size =
    magic
    ++ (u16_to_be stream_version
        ++ (purpose_byte purpose ∷ direction_byte direction ∷ (session_id ++ u32_to_be size)))

-- `bytes[from..][..size]`
abbrev pub slice : ℕ → ℕ → Bytes → Bytes
slice from size bytes = take size (drop from bytes)

-- The header is one of this version, purpose, direction and session.
unfoldable pub is_expected : SessionPurpose → Direction → Bytes → Bytes → Bool
unfolding u16_to_be
is_expected purpose direction session_id header =
    bytes_eq (slice 0 4 header) magic
    && (bytes_eq (slice 4 2 header) (u16_to_be stream_version)
        && (bytes_eq (slice 6 1 header) (purpose_byte purpose ∷ [])
            && (bytes_eq (slice 7 1 header) (direction_byte direction ∷ [])
                && bytes_eq (slice 8 16 header) session_id)))

-- The size that a header announces.
unfoldable pub message_size :
    SessionPurpose → Direction → Bytes → TransportLimits → Bytes → Result TransportError ℕ
unfolding is_expected u32_from_be
message_size purpose direction session_id limits header = do
  ensure (is_expected purpose direction session_id header) invalid_frame
  size ← ok_or (u32_from_be (drop 24 header)) invalid_frame
  refuse (ltb limits.max_message_bytes size) message_too_large
  ok size

-- The header of a message that keeps the limits.
unfoldable pub header_for :
    SessionPurpose → Direction → Bytes → Bytes → TransportLimits → Result TransportError Bytes
unfolding frame_header
header_for purpose direction session_id message limits = do
  refuse (ltb limits.max_message_bytes (length message)) message_too_large
  refuse (leb (2 ^ 32) (length message)) message_too_large
  ok (frame_header purpose direction session_id (length message))
