-- ===== src/Protocol/Reading.antt =====
-- Each reading step of crates/core/src/protocol/mod.rs undoes the writing step it stands for.
use age_plugin_phone.Base.{
  ℕ, ◌^◌, ◌≤◌, ◌<◌, ◌≡◌, refl, ◌⊎◌, true, Option, some, none, List, [], ◌∷◌, ◌++◌, arith, Bytes,
  bytes_eq_refl, length, All, ok,
}
use age_plugin_phone.Cbor.{Cbor, IsCbor}
use age_plugin_phone.Recipient.{TaggedStanza}
use age_plugin_phone.Protocol.Encode.{header, encode_args, encode_stanza, encode_hint}
use age_plugin_phone.Protocol.Decode.{
  canonical, arr, hdr, fixed_bytes, text, decode_args, argument_count, decode_stanza,
  decode_hint_as, decode_hint,
}

-- A `str` of at most `n` bytes.
abbrev pub FitsText : Cbor → ℕ → Bytes → Type 0
FitsText c n s = (length s ≤ n) × (c.is_utf8 s ≡ true)

abbrev pub FitsHint : Cbor → Option Bytes → Type 0
FitsHint c none = Unit
FitsHint c (some hint) = FitsText c 64 hint

pub record FitsStanza (c : Cbor) (v : TaggedStanza) : Type 0 where
  pub tag_fits : FitsText c 64 v.tag
  pub args_count : (length v.args ≡ 1) ⊎ (length v.args ≡ 2)
  pub args_fit : All (FitsText c 128) v.args
  pub body_fits : length v.body ≡ 32

pub canonical_lem : (b : Bytes) → canonical b b ≡ ok tt
unfolding canonical
canonical_lem b = rw (bytes_eq_refl b)

pub argument_count_lem : (n : ℕ) → ((n ≡ 1) ⊎ (n ≡ 2)) → argument_count (some n) ≡ ok n
unfolding argument_count
argument_count_lem n h = ground arith

module _ (c : Cbor) (h : IsCbor c) where
  pub arr_lem : (n : ℕ) (rest : Bytes) → n < 2 ^ 64 → arr c n (c.put_array n ++ rest) ≡ ok rest
  unfolding arr
  arr_lem n rest l = rw (h.array_law n rest l) (ground arith)

  pub hdr_lem :
      (n kind : ℕ) (rest : Bytes)
      → n < 2 ^ 64
      → kind < 2 ^ 16
      → hdr c n kind (header c n kind rest) ≡ ok rest
  unfolding hdr header
  hdr_lem n kind rest l k =
      rw
        (
          arr_lem n (c.put_u16 2 ++ (c.put_u16 kind ++ (c.put_u16 1 ++ rest))) l,
          h.u16_law 2 (c.put_u16 kind ++ (c.put_u16 1 ++ rest)) (omega arith),
          h.u16_law kind (c.put_u16 1 ++ rest) k,
          h.u16_law 1 rest (omega arith),
        )
        (ground arith)

  pub fixed_bytes_lem :
      (n : ℕ) (bs rest : Bytes)
      → length bs ≡ n
      → n < 2 ^ 64
      → fixed_bytes c n (c.put_bytes bs ++ rest) ≡ ok (bs, rest)
  unfolding fixed_bytes
  fixed_bytes_lem n bs rest l k = rw (h.bytes_law bs rest (omega arith)) (ground arith)

  pub text_lem :
      (n : ℕ) (s rest : Bytes)
      → FitsText c n s
      → n < 2 ^ 64
      → text c n (c.put_str s ++ rest) ≡ ok (s, rest)
  unfolding text
  text_lem n s rest (l, u) k = rw (h.str_law s rest (omega arith) u) (ground arith)

  pub decode_args_lem :
      (args : List Bytes) (rest : Bytes)
      → All (FitsText c 128) args
      → decode_args c (length args) (encode_args c args rest) ≡ ok (args, rest)
  unfolding decode_args encode_args
  decode_args_lem [] rest f = refl
  decode_args_lem (a ∷ args) rest f =
      rw (text_lem 128 a (encode_args c args rest) f.0 (omega arith), decode_args_lem args rest f.1)

  pub decode_stanza_lem :
      (v : TaggedStanza) (rest : Bytes)
      → FitsStanza c v
      → decode_stanza c (encode_stanza c v rest) ≡ ok (v, rest)
  unfolding decode_stanza encode_stanza
  decode_stanza_lem v rest f =
      let n = length v.args in
      let r4 = c.put_bytes v.body ++ rest in
      let r3 = encode_args c v.args r4 in
      let r2 = c.put_array n ++ r3 in
      let count = f.args_count in
      let size = f.body_fits in
      let accepted : argument_count (some n) ≡ ok n = argument_count_lem n count in
      rw (
        arr_lem 3 (c.put_str v.tag ++ r2) (omega arith),
        text_lem 64 v.tag r2 f.tag_fits (omega arith),
        h.array_law n r3 (omega arith),
        accepted,
        decode_args_lem v.args r4 f.args_fit,
        h.bytes_law v.body rest (omega arith),
        size,
      )

  pub decode_hint_lem :
      (hint : Option Bytes) → FitsHint c hint → decode_hint c (encode_hint c hint) ≡ ok (hint, [])
  unfolding decode_hint encode_hint
  decode_hint_lem none f = rw (h.datatype_null_law [], decode_hint_as, h.null_law [])
  decode_hint_lem (some s) f =
      rw (h.datatype_str_law s [], decode_hint_as, text_lem 64 s [] f (omega arith))
