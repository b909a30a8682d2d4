-- ===== src/Qr/Reassembler.antt =====
-- crates/core/src/protocol/qr.rs: `QrReassembler` and `ActiveAssembly`.
pub mod Complete
pub mod Valid
use age_plugin_phone.Base.{
  ℕ, suc, ◌+◌, ◌-◌, ◌^◌, Bool, true, false, not, ◌&&◌, ◌||◌, Option, some, none, List, [], ◌∷◌,
  ◌++◌, Bytes, bytes_eq, length, get_elem?, set, take, replicate, any, ltb, leb, ◌==◌,
  if◌then◌else◌, Result, ok, err, ok_or, ensure, refuse, ◌>>=◌, ◌>>◌,
}
use age_plugin_phone.Cbor.{Cbor}
use age_plugin_phone.Crypto.{Crypto}
use age_plugin_phone.Qr.{
  max_qr_assembly_age_ms, QrError, malformed_frame, different_transfer, conflicting_fragment,
  timeout, clock_rollback, digest_mismatch, poisoned_assembly, Frame,
}
use age_plugin_phone.Qr.Frames.{decode_text, message_digest}

pub data QrAssemblyStatus : Type 0 where
  in_progress : ℕ → ℕ → QrAssemblyStatus
  complete : Bytes → QrAssemblyStatus

pub record ActiveAssembly : Type 0 where
  pub transfer_id : Bytes
  pub digest : Bytes
  pub count : ℕ
  pub total_len : ℕ
  pub started_at_ms : ℕ
  pub chunks : List (Option Bytes)
  pub received : ℕ
  pub received_bytes : ℕ

pub record QrReassembler : Type 0 where
  pub active : Option ActiveAssembly
  pub poisoned : Bool

unfoldable pub start_assembly : Frame → ℕ → ActiveAssembly
start_assembly frame now = record {
  transfer_id = frame.transfer_id;
  digest = frame.digest;
  count = frame.count;
  total_len = frame.total_len;
  started_at_ms = now;
  chunks = replicate frame.count none;
  received = 0;
  received_bytes = 0;
}

-- `collect` of `chunk.ok_or(MalformedFrame)`.
unfoldable pub collect : List (Option Bytes) → Result QrError (List Bytes)
collect [] = ok []
collect (slot ∷ slots) = do
  chunk ← ok_or slot malformed_frame
  rest ← collect slots
  ok (chunk ∷ rest)

unfoldable pub concat : List Bytes → Bytes
concat [] = []
concat (chunk ∷ rest) = chunk ++ concat rest

-- `last().is_none_or(...)`
unfoldable pub last_is_bad : ℕ → List Bytes → Bool
last_is_bad size chunks = elim (get_elem? chunks (length chunks - 1)) [
  | none ↦ true
  | some chunk ↦ length chunk == 0 || ltb size (length chunk)
]

-- `chunks[index]` holds nothing yet. An index out of bounds, at which the code would panic, is read
-- as an empty slot that cannot be written.
unfoldable pub slot_at : List (Option Bytes) → ℕ → Option Bytes
slot_at slots i = elim (get_elem? slots i) [ none ↦ none | some slot ↦ slot ]

-- The reassembler after an error that ends the assembly, and with an assembly under way.
abbrev pub stopped : QrReassembler
stopped = record { active = none; poisoned = true }

abbrev pub assembling : ActiveAssembly → QrReassembler
assembling a = record { active = some a; poisoned = false }

-- `new` and `reset`
abbrev pub idle : QrReassembler
idle = record { active = none; poisoned = false }

unfoldable pub same_transfer : Frame → ActiveAssembly → Bool
same_transfer frame a =
    bytes_eq frame.transfer_id a.transfer_id
    && (bytes_eq frame.digest a.digest
        && (frame.count == a.count && frame.total_len == a.total_len))

module _ (c : Cbor) (x : Crypto) where
  unfoldable pub assemble : ActiveAssembly → Result QrError Bytes
  unfolding collect concat last_is_bad
  assemble a = do
    chunks ← collect a.chunks
    first ← ok_or (get_elem? chunks 0) malformed_frame
    let size = length first
    refuse
        (size == 0
          || (any (λ chunk. not (length chunk == size)) (take (length chunks - 1) chunks)
              || last_is_bad size chunks))
        malformed_frame
    let message = concat chunks
    ensure (length message == a.total_len) malformed_frame
    ensure (bytes_eq (message_digest c x message) a.digest) digest_mismatch
    ok message

  -- The end of `push`: is every fragment there?
  unfoldable pub finish_push : ActiveAssembly → Result QrError QrAssemblyStatus × QrReassembler
  finish_push a =
      if a.received == a.count
      then elim (assemble a) [
        | ok message ↦ (ok (complete message), idle)
        | err e ↦ (err e, stopped)
      ]
      else (ok (in_progress a.received a.count), assembling a)

  -- The fragment goes to its slot, or is compared with what is there.
  unfoldable pub place : Frame → ActiveAssembly → Result QrError QrAssemblyStatus × QrReassembler
  unfolding finish_push
  place frame a = elim (slot_at a.chunks frame.index) [
    | some existing ↦
        if bytes_eq existing frame.chunk then finish_push a else (err conflicting_fragment, stopped)
    | none ↦
        (let received_bytes = a.received_bytes + length frame.chunk in
          if leb (2 ^ 64) received_bytes || ltb a.total_len received_bytes
          then (err malformed_frame, stopped)
          else finish_push (record a {
            received_bytes = received_bytes;
            chunks = set a.chunks frame.index (some frame.chunk);
            received = a.received + 1;
          }))
  ]

  unfoldable pub push_frame :
      Frame → ℕ → ActiveAssembly → Result QrError QrAssemblyStatus × QrReassembler
  unfolding place same_transfer
  push_frame frame now a =
      if ltb now a.started_at_ms
      then (err clock_rollback, stopped)
      else if ltb max_qr_assembly_age_ms (now - a.started_at_ms)
      then (err timeout, stopped)
      else if same_transfer frame a
      then place frame a
      else (err different_transfer, assembling a)

  -- The assembly under way, or one that this frame starts.
  unfoldable pub assembly_for : Frame → ℕ → Option ActiveAssembly → ActiveAssembly
  unfolding start_assembly
  assembly_for frame now none = start_assembly frame now
  assembly_for frame now (some a) = a

  unfoldable pub push : Bytes → ℕ → QrReassembler → Result QrError QrAssemblyStatus × QrReassembler
  unfolding push_frame assembly_for
  push encoded now r =
      if r.poisoned then (err poisoned_assembly, r) else elim (decode_text c x encoded) [
        | err e ↦ (err e, r)
        | ok frame ↦ push_frame frame now (assembly_for frame now r.active)
      ]
