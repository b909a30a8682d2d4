-- ===== src/Qr/Frames/RoundTrip.antt =====
-- A frame of crates/core/src/protocol/qr.rs is read back from its text, and a text that is read is
-- the only one for its frame.
use age_plugin_phone.Base.{
  ℕ, ◌^◌, ◌≤◌, ◌<◌, ◌≡◌, true, [], ◌++◌, arith, Bytes, bytes_eq_refl, length, length-append,
  take-append, drop-append, ok,
}
use age_plugin_phone.Cbor.{Cbor, IsCbor}
use age_plugin_phone.Crypto.{Crypto, IsCrypto}
use age_plugin_phone.Qr.{text_prefix, Frame}
use age_plugin_phone.Qr.Frames.{
  in_bounds, frame_items, encode_cbor, fixed_bytes, check_frame, decode_cbor, encode_text,
  decode_text,
}

-- The sizes of the arrays and the bounds that a frame of a transfer keeps.
pub record FitsFrame (f : Frame) : Type 0 where
  pub id_fits : length f.transfer_id ≡ 16
  pub digest_fits : length f.digest ≡ 32
  pub bounds : in_bounds f ≡ true

in_bounds-parts :
    (f : Frame)
    → in_bounds f ≡ true
    → (f.index < 2 ^ 16) × (f.count < 2 ^ 16) × (f.total_len < 2 ^ 32) × (length f.chunk < 2 ^ 64)
unfolding in_bounds
in_bounds-parts f b = ground arith

encode_cbor_lem :
    (c : Cbor) (f : Frame) → f.total_len < 2 ^ 32 → encode_cbor c f ≡ ok (frame_items c f)
unfolding encode_cbor
encode_cbor_lem c f l = ground arith

module _ (c : Cbor) (h : IsCbor c) where
  fixed_bytes_lem :
      (n : ℕ) (bs rest : Bytes)
      → length bs ≡ n
      → n < 2 ^ 64
      → fixed_bytes c n (c.put_bytes bs ++ rest) ≡ ok (bs, rest)
  unfolding fixed_bytes
  fixed_bytes_lem n bs rest l k = rw (h.bytes_law bs rest (omega arith)) (ground arith)

  decode_cbor-frame_items : (f : Frame) → FitsFrame f → decode_cbor c (frame_items c f) ≡ ok f
  unfolding decode_cbor check_frame frame_items
  decode_cbor-frame_items f fits =
      let (li, lc, lt, lk) = in_bounds-parts f fits.bounds in
      let bounds = fits.bounds in
      let r8 = c.put_bytes f.chunk ++ [] in
      let r7 = c.put_u32 f.total_len ++ r8 in
      let r6 = c.put_u16 f.count ++ r7 in
      let r5 = c.put_u16 f.index ++ r6 in
      let r4 = c.put_bytes f.digest ++ r5 in
      let r3 = c.put_bytes f.transfer_id ++ r4 in
      let r2 = c.put_u16 1 ++ r3 in
      let r1 = c.put_u16 1 ++ r2 in
      rw (
        h.array_law 8 r1 (omega arith),
        h.u16_law 1 r2 (omega arith),
        h.u16_law 1 r3 (omega arith),
        fixed_bytes_lem 16 f.transfer_id r4 fits.id_fits (omega arith),
        fixed_bytes_lem 32 f.digest r5 fits.digest_fits (omega arith),
        h.u16_law f.index r6 li,
        h.u16_law f.count r7 lc,
        h.u32_law f.total_len r8 lt,
        h.bytes_law f.chunk [] lk,
        bounds,
        encode_cbor_lem c f lt,
        bytes_eq_refl (frame_items c f),
      )

  frame_items-not_empty : (f : Frame) → 1 ≤ length (frame_items c f)
  unfolding frame_items
  frame_items-not_empty f = omega (arith, length-append (c.put_array 8) _, h.array_size 8)

  module _ (x : Crypto) (k : IsCrypto x) where
    -- The text of a frame that keeps the bounds of a transfer is read back as the frame.
    pub decode_text-encode_text :
        (f : Frame) (text : Bytes)
        → FitsFrame f
        → encode_text c x f ≡ ok text
        → decode_text c x text ≡ ok f
    unfolding encode_text decode_text
    decode_text-encode_text f text fits e =
        let (_, _, lt, _) = in_bounds-parts f fits.bounds in
        let payload = x.base64_url_encode (frame_items c f) in
        let encoded = encode_cbor_lem c f lt in
        let size : 1 ≤ length payload =
          omega (arith, k.base64_url_length (frame_items c f), frame_items-not_empty f) in
        ground (
          arith,
          encoded,
          size,
          take-append text_prefix payload,
          drop-append text_prefix payload,
          bytes_eq_refl text_prefix,
          bytes_eq_refl payload,
          k.base64_url_law (frame_items c f),
          k.base64_url_no_pad (frame_items c f),
          decode_cbor-frame_items f fits,
        )
