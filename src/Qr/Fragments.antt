-- ===== src/Qr/Fragments.antt =====
-- crates/core/src/protocol/qr.rs: `fragment_qr_message`.
use age_plugin_phone.Base.{
  ℕ, zero, suc, ◌+◌, ◌-◌, ◌/◌, ◌^◌, ◌&&◌, ◌||◌, List, [], ◌∷◌, Bytes, length, take, drop, ltb, leb,
  ◌==◌, if◌then◌else◌, Result, ok, err, ensure, refuse, ◌>>=◌, ◌>>◌,
}
use age_plugin_phone.Cbor.{Cbor}
use age_plugin_phone.Crypto.{Crypto}
use age_plugin_phone.Qr.{
  default_qr_chunk_bytes, max_qr_message_bytes, max_qr_fragments, QrError, message_size, chunk_size,
  too_many_fragments,
}
use age_plugin_phone.Qr.Frames.{encode_text, message_digest}

-- `slice::chunks(n)` for a positive `n`: at most one chunk for each element.
unfoldable pub chunks_within : ℕ → ℕ → Bytes → List Bytes
chunks_within zero n message = []
chunks_within (suc k) n [] = []
chunks_within (suc k) n (b ∷ message) =
    take n (b ∷ message) ∷ chunks_within k n (drop n (b ∷ message))

unfoldable pub chunks : ℕ → Bytes → List Bytes
unfolding chunks_within
chunks n message = chunks_within (length message) n message

-- `usize::div_ceil` for a positive divisor.
unfoldable pub div_ceil : ℕ → ℕ → ℕ
div_ceil a n = (a + (n - 1)) / n

-- `u16::try_from`
unfoldable pub try_u16 : ℕ → Result QrError ℕ
try_u16 n = if ltb n (2 ^ 16) then ok n else err too_many_fragments

module _ (c : Cbor) (x : Crypto) where
  -- The frame of the chunk `index` as text.
  unfoldable pub fragment : Bytes → Bytes → ℕ → ℕ → ℕ → Bytes → Result QrError Bytes
  unfolding try_u16
  fragment transfer_id digest total_len fragment_count index chunk = do
    index ← try_u16 index
    count ← try_u16 fragment_count
    encode_text c x (record {
      transfer_id = transfer_id;
      digest = digest;
      index = index;
      count = count;
      total_len = total_len;
      chunk = chunk;
    })

  -- The chunks from `index` on; the first error is the result.
  unfoldable pub fragments : Bytes → Bytes → ℕ → ℕ → ℕ → List Bytes → Result QrError (List Bytes)
  fragments transfer_id digest total_len fragment_count index [] = ok []
  fragments transfer_id digest total_len fragment_count index (chunk ∷ rest) = do
    text ← fragment transfer_id digest total_len fragment_count index chunk
    texts ← fragments transfer_id digest total_len fragment_count (suc index) rest
    ok (text ∷ texts)

  -- The transfer identifier is drawn at random.
  unfoldable pub fragment_qr_message : Bytes → ℕ → Bytes → Result QrError (List Bytes)
  unfolding div_ceil chunks
  fragment_qr_message message chunk_bytes transfer_id = do
    refuse (length message == 0 || ltb max_qr_message_bytes (length message)) message_size
    ensure (leb 1 chunk_bytes && leb chunk_bytes default_qr_chunk_bytes) chunk_size
    let fragment_count = div_ceil (length message) chunk_bytes
    refuse (ltb max_qr_fragments fragment_count) too_many_fragments
    fragments transfer_id (message_digest c x message) (length message) fragment_count 0
        (chunks chunk_bytes message)
