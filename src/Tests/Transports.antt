-- ===== src/Tests/Transports.antt =====
-- A concrete stream, and exchanges of crates/desktop/src/transport.rs over it.
use age_plugin_phone.Base.{
  ℕ, ◌≤◌, ◌≡◌, refl, sym, ap, ◌∙◌, true, false, Option, some, none, [], ◌∷◌, ◌++◌, arith, Bytes,
  bytes_eq, codes, replicate, length, length-append, length-take, take, drop, take-append,
  drop-append, leb, All, if◌then◌else◌, ok, Bool-cases, inl, inr, IsBytes,
}
use mathlib.Core.Path.{subst}
use age_plugin_phone.Transport.{
  unwrap, pairing, phone_response, TransportLimits, u16_to_be, u32_to_be, u32_from_be, frame_header,
  is_expected, message_size, header_for,
}
use age_plugin_phone.Transport.Messages.{message_size-frame_header}
use age_plugin_phone.Transport.Stream.{
  Stream, write_message, read_message, DesktopStreamSession, converse, exchange,
}
use age_plugin_phone.Transport.Stream.Once.{exchanges, cancels, call, calls, IsClosed, calls_first}
use age_plugin_phone.Transport.Stream.Delivery.{
  IsStream, framed, Answers, exchange_answered, exchange_le,
}
use age_plugin_phone.Transport.Policy.{auto, TransportOperation, SocketAddr, v4, resolve_transport}
use age_plugin_phone.Transport.Policy.Routes.{success, allowed, resolve_transport-allowed}

-- What was sent and what can be read.
pub record Pipe : Type 0 where
  pub sent : Bytes
  pub incoming : Bytes

abbrev some_id : Bytes
some_id = replicate 16 7

-- A phone answers `no` and sends three bytes more.
abbrev answer : Bytes
answer = framed unwrap phone_response some_id (codes "no") ++ (1 ∷ 2 ∷ 3 ∷ [])

abbrev read_pipe : ℕ → Pipe → Option Bytes × Pipe
read_pipe n s =
    if leb n (length s.incoming)
    then (some (take n s.incoming), record s { incoming = drop n s.incoming })
    else (none, s)

abbrev pipe : Stream Pipe
pipe = record {
  write_all = λ bytes s. (some tt, record s { sent = s.sent ++ bytes });
  flush = λ s. (some tt, record s { incoming = s.incoming ++ answer });
  read_exact = read_pipe;
}

read_pipe_lem :
    (bytes rest sent : Bytes)
    → read_pipe (length bytes) (record { sent = sent; incoming = bytes ++ rest })
      ≡ (some bytes, record { sent = sent; incoming = rest })
read_pipe_lem bytes rest sent =
    let enough : leb (length bytes) (length (bytes ++ rest)) ≡ true =
      (let l = length-append bytes rest in ground arith) in
    rw (enough, take-append bytes rest, drop-append bytes rest) refl

read_pipe_size :
    (n : ℕ) (s : Pipe) (bytes : Bytes) → (read_pipe n s).0 ≡ some bytes → length bytes ≡ n
read_pipe_size n s bytes e = elim (Bool-cases (leb n (length s.incoming))) [
  | inl y ↦
      (let out : (read_pipe n s).0 ≡ some (take n s.incoming) = simp y in
        let same : bytes ≡ take n s.incoming =
          ap (λ o. elim o as (λ o'. Bytes) [ none ↦ bytes | some b ↦ b ]) (sym e ∙ out) in
        let size : length (take n s.incoming) ≡ n =
          (let l = length-take n s.incoming in ground arith) in
        ap (λ (b : Bytes). length b) same ∙ size)
  | inr m ↦ (let out : (read_pipe n s).0 ≡ none = simp m in cc)
]

pipe-IsStream : IsStream pipe
pipe-IsStream = record {
  sent = λ s. s.sent;
  incoming = λ s. s.incoming;
  write_law = λ bytes s. (record s { sent = s.sent ++ bytes }, refl, refl, refl);
  read_law = λ bytes rest s e. (
    record s { incoming = rest },
    subst
        (λ i.
          read_pipe (length bytes) (record { sent = s.sent; incoming = i })
          ≡ (some bytes, record { sent = s.sent; incoming = rest }))
        (sym e) (read_pipe_lem bytes rest s.sent),
    refl,
    refl,
  );
  read_size = read_pipe_size;
}

abbrev some_pipe : Pipe
some_pipe = record { sent = []; incoming = [] }

abbrev some_session : DesktopStreamSession Pipe
some_session = record {
  stream = some_pipe;
  limits = record { max_message_bytes = 65536 };
  session_id = some_id;
  closed = false;
}

some_answer :
    Answers pipe pipe-IsStream unwrap some_id (codes "hi") (codes "no") (1 ∷ 2 ∷ 3 ∷ []) some_pipe
unfolding pipe-IsStream frame_header
some_answer t e empty =
    (record t { incoming = t.incoming ++ answer }, refl, ap (λ i. i ++ answer) empty)

abbrev some_left : Bytes
some_left = 1 ∷ 2 ∷ 3 ∷ []

exchange_answered_example :
    (t : Pipe) × (exchange pipe unwrap (codes "hi") some_session
      ≡ (ok (codes "no"), record some_session { stream = t; closed = true }))
    × (t.incoming ≡ some_left)
unfolding pipe-IsStream
exchange_answered_example =
    exchange_answered pipe pipe-IsStream unwrap (codes "hi") (codes "no") some_left some_session
      refl refl (omega arith) (omega arith) (omega arith) some_answer

some_exchange : (exchange pipe unwrap (codes "hi") some_session).0 ≡ ok (codes "no")
unfolding exchange converse write_message header_for frame_header u16_to_be u32_to_be read_message
    message_size is_expected u32_from_be bytes_eq
some_exchange = refl

exchange_le_example : (false ≡ false) × (2 ≤ 65536) × (2 ≤ 65536)
exchange_le_example =
    exchange_le pipe pipe-IsStream unwrap (codes "hi") (codes "no") some_session some_exchange

calls_first_example :
    let rest = cancels ∷ exchanges pairing [] ∷ [] in
    let first = call pipe (exchanges unwrap (codes "hi")) some_session in
    ((calls pipe (exchanges unwrap (codes "hi") ∷ rest) some_session).0
      ≡ first.0 ++ (calls pipe rest first.1).0)
    × All (IsClosed pipe) (calls pipe rest first.1).0
    × ((calls pipe (exchanges unwrap (codes "hi") ∷ rest) some_session).1 ≡ first.1)
calls_first_example =
    calls_first pipe (exchanges unwrap (codes "hi")) (cancels ∷ exchanges pairing [] ∷ [])
      some_session

abbrev some_limits : TransportLimits
some_limits = record { max_message_bytes = 65536 }

some_size :
    message_size unwrap phone_response some_id some_limits
      (frame_header unwrap phone_response some_id 300)
    ≡ ok 300
some_size =
    message_size-frame_header unwrap phone_response some_id some_limits 300 refl (omega arith)
      (omega arith)

header_IsBytes : IsBytes (frame_header unwrap phone_response some_id 300)
unfolding frame_header u16_to_be u32_to_be
header_IsBytes = ground arith

abbrev some_endpoint : SocketAddr
some_endpoint = record { ip = v4 192 168 1 20; port = 47140 }

resolve_transport-allowed_example :
    success (
      resolve_transport auto TransportOperation.unwrap
        (record { adb_serial = none; wifi_address = some some_endpoint })
        false)
    ≡ allowed auto false none (some some_endpoint)
resolve_transport-allowed_example =
    resolve_transport-allowed auto TransportOperation.unwrap false none (some some_endpoint)
