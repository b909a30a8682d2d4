-- ===== src/Protocol/Sizes.antt =====
-- crates/core/src/protocol/mod.rs: the four payloads stay far below the bound of 65536 bytes that
-- `decode_signed` puts on a message.
use age_plugin_phone.Base.{
  ℕ, ◌+◌, ◌*◌, ◌≤◌, Option, some, none, List, [], ◌∷◌, ◌++◌, arith, Bytes, length, length-append,
  All,
}
use age_plugin_phone.Cbor.{Cbor, IsCbor, head_size}
use age_plugin_phone.Recipient.{TaggedStanza}
use age_plugin_phone.Protocol.{PairingOffer, PairingResponse, UnwrapRequest, UnwrapResponse}
use age_plugin_phone.Protocol.Encode.{
  header, encode_args, encode_stanza, encode_hint, encode_offer, encode_pairing_response,
  encode_request, encode_response,
}
use age_plugin_phone.Protocol.Reading.{FitsText, FitsHint, FitsStanza}
use age_plugin_phone.Protocol.RoundTrip.{FitsOffer, FitsPairingResponse, FitsRequest, FitsResponse}

head_size_le : (n : ℕ) → head_size n ≤ 9
head_size_le n = ground arith

module _ (c : Cbor) (h : IsCbor c) where
  array_le : (n : ℕ) (rest : Bytes) → length (c.put_array n ++ rest) ≤ 9 + length rest
  array_le n rest =
      omega (arith, length-append (c.put_array n) rest, h.array_size n, head_size_le n)

  u16_le : (n : ℕ) (rest : Bytes) → length (c.put_u16 n ++ rest) ≤ 9 + length rest
  u16_le n rest = omega (arith, length-append (c.put_u16 n) rest, h.u16_size n, head_size_le n)

  u64_le : (n : ℕ) (rest : Bytes) → length (c.put_u64 n ++ rest) ≤ 9 + length rest
  u64_le n rest = omega (arith, length-append (c.put_u64 n) rest, h.u64_size n, head_size_le n)

  pub bytes_le : (bs rest : Bytes) → length (c.put_bytes bs ++ rest) ≤ 9 + length bs + length rest
  bytes_le bs rest =
      omega (arith, length-append (c.put_bytes bs) rest, h.bytes_size bs, head_size_le (length bs))

  str_le : (s rest : Bytes) → length (c.put_str s ++ rest) ≤ 9 + length s + length rest
  str_le s rest =
      omega (arith, length-append (c.put_str s) rest, h.str_size s, head_size_le (length s))

  header_le : (n kind : ℕ) (rest : Bytes) → length (header c n kind rest) ≤ 36 + length rest
  unfolding header
  header_le n kind rest =
      let r3 = c.put_u16 1 ++ rest in
      let r2 = c.put_u16 kind ++ r3 in
      omega (arith, array_le n (c.put_u16 2 ++ r2), u16_le 2 r2, u16_le kind r3, u16_le 1 rest)

  args_le :
      (args : List Bytes) (rest : Bytes)
      → All (FitsText c 128) args
      → length (encode_args c args rest) ≤ 137 * length args + length rest
  unfolding encode_args
  args_le [] rest f = omega arith
  args_le (a ∷ args) rest f =
      let fits = f.0.0 in
      omega (arith, str_le a (encode_args c args rest), args_le args rest f.1, fits)

  stanza_le :
      (v : TaggedStanza) (rest : Bytes)
      → FitsStanza c v
      → length (encode_stanza c v rest) ≤ 406 + length rest
  unfolding encode_stanza
  stanza_le v rest f =
      let r3 = c.put_bytes v.body ++ rest in
      let r2 = encode_args c v.args r3 in
      let r1 = c.put_array (length v.args) ++ r2 in
      let tag = f.tag_fits.0 in
      let count = f.args_count in
      let body = f.body_fits in
      omega (
        arith,
        array_le 3 (c.put_str v.tag ++ r1),
        str_le v.tag r1,
        array_le (length v.args) r2,
        args_le v.args r3 f.args_fit,
        bytes_le v.body rest,
      )

  hint_le : (hint : Option Bytes) → FitsHint c hint → length (encode_hint c hint) ≤ 73
  unfolding encode_hint
  hint_le none f = omega (arith, length-append c.put_null [], h.null_size)
  hint_le (some s) f = (let fits = f.0 in omega (arith, str_le s [], fits))

  pub offer_le : (v : PairingOffer) → FitsOffer c v → length (encode_offer c v) ≤ 65000
  unfolding encode_offer
  offer_le v f =
      let r5 = c.put_bytes v.nonce ++ [] in
      let r4 = c.put_bytes v.desktop_selection_public_key ++ r5 in
      let r3 = c.put_bytes v.desktop_signing_public_key ++ r4 in
      let r2 = c.put_str v.desktop_label ++ r3 in
      let label = f.label_fits.0 in
      omega (
        arith,
        header_le 8 1 (c.put_bytes v.desktop_id ++ r2),
        bytes_le v.desktop_id r2,
        str_le v.desktop_label r3,
        bytes_le v.desktop_signing_public_key r4,
        bytes_le v.desktop_selection_public_key r5,
        bytes_le v.nonce [],
        f.id_fits,
        label,
        f.signing_fits,
        f.selection_fits,
        f.nonce_fits,
      )

  pub pairing_response_le :
      (v : PairingResponse) → FitsPairingResponse c v → length (encode_pairing_response c v) ≤ 65000
  unfolding encode_pairing_response
  pairing_response_le v f =
      let r5 = c.put_bytes v.nonce ++ [] in
      let r4 = c.put_bytes v.offer_digest ++ r5 in
      let r3 = c.put_bytes v.phone_signing_public_key ++ r4 in
      let r2 = c.put_str v.recipient ++ r3 in
      let text = f.recipient_fits.0 in
      omega (
        arith,
        header_le 8 2 (c.put_bytes v.identity_id ++ r2),
        bytes_le v.identity_id r2,
        str_le v.recipient r3,
        bytes_le v.phone_signing_public_key r4,
        bytes_le v.offer_digest r5,
        bytes_le v.nonce [],
        f.id_fits,
        text,
        f.signing_fits,
        f.digest_fits,
        f.nonce_fits,
      )

  pub request_le : (v : UnwrapRequest) → FitsRequest c v → length (encode_request c v) ≤ 65000
  unfolding encode_request
  request_le v f =
      let r8 = encode_hint c v.caller_hint in
      let r7 = c.put_u64 v.expires_at_unix ++ r8 in
      let r6 = c.put_bytes v.nonce ++ r7 in
      let r5 = encode_stanza c v.recipient_stanza r6 in
      let r4 = c.put_bytes v.session_public_key ++ r5 in
      let r3 = c.put_bytes v.desktop_id ++ r4 in
      let r2 = c.put_bytes v.identity_id ++ r3 in
      omega (
        arith,
        header_le 11 3 (c.put_bytes v.request_id ++ r2),
        bytes_le v.request_id r2,
        bytes_le v.identity_id r3,
        bytes_le v.desktop_id r4,
        bytes_le v.session_public_key r5,
        stanza_le v.recipient_stanza r6 f.stanza_fits,
        bytes_le v.nonce r7,
        u64_le v.expires_at_unix r8,
        hint_le v.caller_hint f.hint_fits,
        f.request_fits,
        f.identity_fits,
        f.desktop_fits,
        f.session_fits,
        f.nonce_fits,
      )

  pub response_le : (v : UnwrapResponse) → FitsResponse v → length (encode_response c v) ≤ 65000
  unfolding encode_response
  response_le v f =
      let r7 = c.put_bytes v.encrypted_file_key ++ [] in
      let r6 = c.put_bytes v.nonce ++ r7 in
      let r5 = c.put_bytes v.phone_session_public_key ++ r6 in
      let r4 = c.put_bytes v.desktop_id ++ r5 in
      let r3 = c.put_bytes v.identity_id ++ r4 in
      let r2 = c.put_bytes v.request_digest ++ r3 in
      omega (
        arith,
        header_le 10 4 (c.put_bytes v.request_id ++ r2),
        bytes_le v.request_id r2,
        bytes_le v.request_digest r3,
        bytes_le v.identity_id r4,
        bytes_le v.desktop_id r5,
        bytes_le v.phone_session_public_key r6,
        bytes_le v.nonce r7,
        bytes_le v.encrypted_file_key [],
        f.request_fits,
        f.digest_fits,
        f.identity_fits,
        f.desktop_fits,
        f.session_fits,
        f.nonce_fits,
        f.sealed_fits,
      )
