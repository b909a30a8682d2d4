-- ===== src/Qr/Frames.antt =====
-- crates/core/src/protocol/qr.rs: a frame as CBOR and as text.
pub mod RoundTrip
use age_plugin_phone.Base.{
  ℕ, ◌^◌, Bool, true, false, not, ◌&&◌, ◌||◌, Option, some, none, List, [], ◌∷◌, ◌++◌, Bytes,
  bytes_eq, length, take, drop, any, ltb, leb, ◌==◌, if◌then◌else◌, Result, ok, err, ok_or, ensure,
  refuse, ◌>>=◌, ◌>>◌,
}
use age_plugin_phone.Cbor.{Cbor}
use age_plugin_phone.Crypto.{Crypto}
use age_plugin_phone.Qr.{
  text_prefix, frame_version, frame_type, max_encoded_frame_chars, message_digest_domain,
  default_qr_chunk_bytes, max_qr_message_bytes, max_qr_fragments, QrError, message_size, chunk_size,
  malformed_frame, unsupported_version, unsupported_type, Frame,
}

-- The bounds of a frame that is not out of its transfer.
unfoldable pub in_bounds : Frame → Bool
in_bounds f =
    not (f.count == 0)
    && (leb f.count max_qr_fragments
        && (ltb f.index f.count
            && ((leb 1 f.total_len && leb f.total_len max_qr_message_bytes)
                && (not (length f.chunk == 0)
                    && (leb (length f.chunk) default_qr_chunk_bytes
                        && leb (length f.chunk) f.total_len)))))

module _ (c : Cbor) where
  -- The items of a frame whose length fits 32 bits.
  unfoldable pub frame_items : Frame → Bytes
  frame_items f =
      c.put_array 8
      ++ (c.put_u16 frame_version
          ++ (c.put_u16 frame_type
              ++ (c.put_bytes f.transfer_id
                  ++ (c.put_bytes f.digest
                      ++ (c.put_u16 f.index
                          ++ (c.put_u16 f.count
                              ++ (c.put_u32 f.total_len ++ (c.put_bytes f.chunk ++ []))))))))

  unfoldable pub encode_cbor : Frame → Result QrError Bytes
  unfolding frame_items
  encode_cbor f = if ltb f.total_len (2 ^ 32) then ok (frame_items f) else err message_size

  -- `fixed_bytes::<N>`
  unfoldable pub fixed_bytes : ℕ → Bytes → Result QrError (Bytes × Bytes)
  fixed_bytes n d = do
    (bytes, d) ← ok_or (c.get_bytes d) malformed_frame
    ensure (length bytes == n) malformed_frame
    ok (bytes, d)

  -- The checks of `decode_cbor` on what was read: the rest is empty, the bounds hold, and the frame is
  -- encoded as it came.
  unfoldable pub check_frame : Bytes → Bytes → Frame → Result QrError Frame
  unfolding in_bounds
  check_frame encoded d frame = do
    ensure (length d == 0 && in_bounds frame) malformed_frame
    again ← encode_cbor frame
    ensure (bytes_eq again encoded) malformed_frame
    ok frame

  unfoldable pub decode_cbor : Bytes → Result QrError Frame
  unfolding check_frame
  decode_cbor encoded = do
    (size, d) ← ok_or (c.get_array encoded) malformed_frame
    ensure (elim size [ none ↦ false | some n ↦ n == 8 ]) malformed_frame
    (version, d) ← ok_or (c.get_u16 d) malformed_frame
    ensure (version == frame_version) unsupported_version
    (kind, d) ← ok_or (c.get_u16 d) malformed_frame
    ensure (kind == frame_type) unsupported_type
    (transfer_id, d) ← fixed_bytes 16 d
    (digest, d) ← fixed_bytes 32 d
    (index, d) ← ok_or (c.get_u16 d) malformed_frame
    (count, d) ← ok_or (c.get_u16 d) malformed_frame
    (total_len, d) ← ok_or (c.get_u32 d) malformed_frame
    (chunk, d) ← ok_or (c.get_bytes d) malformed_frame
    let frame : Frame = record {
      transfer_id = transfer_id;
      digest = digest;
      index = index;
      count = count;
      total_len = total_len;
      chunk = chunk;
    }
    check_frame encoded d frame

module _ (c : Cbor) (x : Crypto) where
  unfoldable pub encode_text : Frame → Result QrError Bytes
  encode_text f = do
    encoded ← encode_cbor c f
    let text = text_prefix ++ x.base64_url_encode encoded
    refuse (ltb max_encoded_frame_chars (length text)) chunk_size
    ok text

  -- 61 is the code of the padding character.
  unfoldable pub decode_text : Bytes → Result QrError Frame
  decode_text text = do
    refuse
        (ltb max_encoded_frame_chars (length text)
          || not (bytes_eq (take (length text_prefix) text) text_prefix))
        malformed_frame
    let payload = drop (length text_prefix) text
    refuse (length payload == 0 || any (λ b. b == 61) payload) malformed_frame
    decoded ← ok_or (x.base64_url_decode payload) malformed_frame
    ensure (bytes_eq (x.base64_url_encode decoded) payload) malformed_frame
    decode_cbor c decoded

  unfoldable pub message_digest : Bytes → Bytes
  message_digest message = x.sha256 (message_digest_domain ++ (0 ∷ message))
