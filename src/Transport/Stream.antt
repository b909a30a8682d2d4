-- ===== src/Transport/Stream.antt =====
-- crates/desktop/src/transport.rs: `write_message`, `read_message` and `DesktopStreamSession`.
pub mod Once
pub mod Delivery
use age_plugin_phone.Base.{
  ℕ, ◌+◌, ◌^◌, ◌≤◌, ◌<◌, ◌≡◌, Bool, true, false, ◌||◌, Option, some, none, List, [], ◌∷◌, ◌++◌,
  Bytes, length, ltb, leb, ◌==◌, if◌then◌else◌, Result, ok, err, ok_or,
}
use age_plugin_phone.Base.Exec.{Exec, ◌>>=◌, ◌>>◌, lift}
use age_plugin_phone.Transport.{
  header_len, SessionPurpose, Direction, desktop_request, phone_response, TransportLimits,
  TransportError, session_closed, message_too_large, io, message_size, header_for,
}

-- `Read` and `Write` of a stream with the state `S`. `none` is an `io::Error`.
pub record Stream (S : Type 0) : Type 0 where
  pub write_all : Bytes → S → Option (Unit {0}) × S
  pub flush : S → Option (Unit {0}) × S
  pub read_exact : ℕ → S → Option Bytes × S

-- `.map_err(|_| TransportError::Io)?`
abbrev pub io_step : {S A : Type 0} → (S → Option A × S) → Exec S TransportError A
io_step call s = let out = call s in (ok_or out.0 io, out.1)

module _ {S : Type 0} (stream : Stream S) where
  unfoldable pub write_message :
      SessionPurpose
      → Direction
      → Bytes
      → Bytes
      → TransportLimits
      → Exec S TransportError (Unit {0})
  write_message purpose direction session_id message limits = do
    header ← lift (header_for purpose direction session_id message limits)
    io_step (stream.write_all header)
    io_step (stream.write_all message)

  unfoldable pub read_message :
      SessionPurpose → Direction → Bytes → TransportLimits → Exec S TransportError Bytes
  read_message purpose direction session_id limits = do
    header ← io_step (stream.read_exact header_len)
    size ← lift (message_size purpose direction session_id limits header)
    io_step (stream.read_exact size)

pub record DesktopStreamSession (S : Type 0) : Type 0 where
  pub stream : S
  pub limits : TransportLimits
  pub session_id : Bytes
  pub closed : Bool

-- The session's identifier is drawn at random.
unfoldable pub new :
    {S : Type 0} → S → TransportLimits → Bytes → Result TransportError (DesktopStreamSession S)
new stream limits session_id =
    if limits.max_message_bytes == 0 || leb (2 ^ 32) limits.max_message_bytes
    then err message_too_large
    else ok (record { stream = stream; limits = limits; session_id = session_id; closed = false })

module _ {S : Type 0} (stream : Stream S) where
  -- Write, flush and read on the session's stream.
  unfoldable pub converse :
      SessionPurpose → Bytes → TransportLimits → Bytes → Exec S TransportError Bytes
  unfolding write_message read_message
  converse purpose session_id limits request = do
    write_message stream purpose desktop_request session_id request limits
    io_step stream.flush
    read_message stream purpose phone_response session_id limits

  unfoldable pub exchange :
      SessionPurpose → Bytes → Exec (DesktopStreamSession S) TransportError Bytes
  unfolding converse
  exchange purpose request s =
      if s.closed
      then (err session_closed, s)
      else (let out = converse purpose s.session_id s.limits request s.stream in
          (out.0, record s { stream = out.1; closed = true }))

  abbrev pub cancel : DesktopStreamSession S → DesktopStreamSession S
  cancel s = record s { closed = true }
