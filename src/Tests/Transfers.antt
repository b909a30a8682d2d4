-- ===== src/Tests/Transfers.antt =====
-- Concrete QR transfers of crates/core/src/protocol/qr.rs.
use age_plugin_phone.Base.{
  false, some, none, [], ◌∷◌, arith, ◌≡◌, refl, ◌++◌, Bytes, bytes_eq, codes, replicate, map, ◌+◌,
  length, ok,
}
use age_plugin_phone.Qr.{text_prefix, Frame}
use age_plugin_phone.Qr.Frames.{
  in_bounds, frame_items, encode_cbor, encode_text, decode_text, message_digest,
}
use age_plugin_phone.Qr.Frames.RoundTrip.{FitsFrame, decode_text-encode_text}
use age_plugin_phone.Qr.Reassembler.{
  QrReassembler, in_progress, complete, idle, start_assembly, collect, concat, last_is_bad, slot_at,
  same_transfer, assemble, finish_push, place, push_frame, assembly_for, push,
}
use age_plugin_phone.Qr.Reassembler.Complete.{push_complete}
use age_plugin_phone.Qr.Reassembler.Valid.{filled, filled_bytes, IsValid, push-IsValid}
use age_plugin_phone.Tests.Rfc8949.{rfc8949, rfc8949-IsCbor, big_endian}
use age_plugin_phone.Tests.Toy.{toy, toy-IsCrypto, total}

abbrev some_message : Bytes
some_message = codes "a message"

abbrev some_frame : Frame
some_frame = record {
  transfer_id = replicate 16 1;
  digest = message_digest rfc8949 toy some_message;
  index = 0;
  count = 1;
  total_len = 9;
  chunk = some_message;
}

abbrev some_text : Bytes
some_text = text_prefix ++ map (λ b. b + 62) (frame_items rfc8949 some_frame)

encode_some_frame : encode_text rfc8949 toy some_frame ≡ ok some_text
unfolding encode_text encode_cbor frame_items big_endian message_digest total
encode_some_frame = refl

some_frame-Fits : FitsFrame some_frame
unfolding in_bounds message_digest
some_frame-Fits = record { id_fits = refl; digest_fits = refl; bounds = refl }

decode_text-encode_text_example : decode_text rfc8949 toy some_text ≡ ok some_frame
decode_text-encode_text_example =
    decode_text-encode_text rfc8949 rfc8949-IsCbor toy toy-IsCrypto some_frame some_text
      some_frame-Fits encode_some_frame

-- The push of the only frame, with the frame that is read from its text.
frame_pushed :
    (push_frame rfc8949 toy some_frame 1000 (start_assembly some_frame 1000)).0
    ≡ ok (complete some_message)
unfolding push_frame place same_transfer start_assembly slot_at finish_push assemble collect concat
    last_is_bad message_digest total bytes_eq
frame_pushed = refl

pushed : (push rfc8949 toy some_text 1000 idle).0 ≡ ok (complete some_message)
unfolding push assembly_for
pushed =
    rw
      (decode_text-encode_text rfc8949 rfc8949-IsCbor toy toy-IsCrypto some_frame some_text
        some_frame-Fits encode_some_frame)
      frame_pushed

push_complete_example :
    (frame : Frame) × (decode_text rfc8949 toy some_text ≡ ok frame)
    × (length some_message ≡ frame.total_len)
    × (message_digest rfc8949 toy some_message ≡ frame.digest)
    × ((push rfc8949 toy some_text 1000 idle).1 ≡ idle)
push_complete_example = push_complete rfc8949 toy some_text 1000 idle some_message pushed

-- The first of three fragments is there, and the second one comes.
abbrev waiting : QrReassembler
waiting = record {
  active = some (record {
    transfer_id = replicate 16 1;
    digest = message_digest rfc8949 toy some_message;
    count = 3;
    total_len = 9;
    started_at_ms = 1000;
    chunks = some (codes "a m") ∷ none ∷ none ∷ [];
    received = 1;
    received_bytes = 3;
  });
  poisoned = false;
}

waiting-IsValid : IsValid waiting
unfolding filled filled_bytes
waiting-IsValid = (
  record { slots = refl; counted = refl; summed = refl; within = omega arith },
  omega arith,
  refl,
)

abbrev second_frame : Frame
second_frame = record some_frame { index = 1; count = 3; chunk = codes "ess" }

abbrev second_text : Bytes
second_text = text_prefix ++ map (λ b. b + 62) (frame_items rfc8949 second_frame)

encode_second_frame : encode_text rfc8949 toy second_frame ≡ ok second_text
unfolding encode_text encode_cbor frame_items big_endian message_digest total
encode_second_frame = refl

second_frame-Fits : FitsFrame second_frame
unfolding in_bounds message_digest
second_frame-Fits = record { id_fits = refl; digest_fits = refl; bounds = refl }

second_placed :
    (push_frame rfc8949 toy second_frame 1010
      (assembly_for rfc8949 toy second_frame 1010 waiting.active)).0
    ≡ ok (in_progress 2 3)
unfolding push_frame assembly_for place same_transfer slot_at finish_push bytes_eq message_digest
    total
second_placed = refl

still_waiting : (push rfc8949 toy second_text 1010 waiting).0 ≡ ok (in_progress 2 3)
unfolding push
still_waiting =
    rw
      (decode_text-encode_text rfc8949 rfc8949-IsCbor toy toy-IsCrypto second_frame second_text
        second_frame-Fits encode_second_frame)
      second_placed

push-IsValid_example : IsValid (push rfc8949 toy second_text 1010 waiting).1
push-IsValid_example = push-IsValid rfc8949 toy second_text 1010 waiting waiting-IsValid
