-- ===== src/Cbor.antt =====
-- The encoder and the decoder of the third-party crate minicbor, which the protocol, QR and replay
-- code call (crates/core/src/protocol/). The crate is not part of the repository, so it is a
-- parameter: its operations are functions and its documented behaviour is given by laws.
-- A decoder over a slice is the part of the slice that it has not read; `position() == len` says
-- that this part is empty. A text is the list of its UTF-8 bytes.
use age_plugin_phone.Base.{
  all, ℕ, ◌+◌, ◌^◌, ◌<◌, ◌≡◌, Bool, true, Option, some, ◌++◌, Bytes, length, ltb, if◌then◌else◌,
}

-- What `datatype()` tells apart in the code.
pub data Datatype : Type 0 where
  null string other : Datatype

pub record Cbor : Type 0 where
  pub put_array : ℕ → Bytes
  pub put_u16 : ℕ → Bytes
  pub put_u32 : ℕ → Bytes
  pub put_u64 : ℕ → Bytes
  pub put_bytes : Bytes → Bytes
  pub put_str : Bytes → Bytes
  pub put_null : Bytes
  -- `Ok(None)` is the header of an array of indefinite length.
  pub get_array : Bytes → Option (Option ℕ × Bytes)
  pub get_u16 : Bytes → Option (ℕ × Bytes)
  pub get_u32 : Bytes → Option (ℕ × Bytes)
  pub get_u64 : Bytes → Option (ℕ × Bytes)
  pub get_bytes : Bytes → Option (Bytes × Bytes)
  pub get_str : Bytes → Option (Bytes × Bytes)
  pub get_null : Bytes → Option Bytes
  pub datatype : Bytes → Option Datatype
  -- The bytes that a `str` may hold.
  pub is_utf8 : Bytes → Bool

-- The length of a head with the argument `n`, in its shortest form.
abbrev pub head_size : ℕ → ℕ
head_size n =
    if ltb n 24
    then 1
    else if ltb n (2 ^ 8)
    then 2
    else if ltb n (2 ^ 16)
    then 3
    else if ltb n (2 ^ 32)
    then 5
    else 9

-- What is written is read back, whatever follows it.
pub record IsCbor (c : Cbor) : Type 0 where
  pub array_law :
      (n : ℕ) (rest : Bytes)
      → n < 2 ^ 64
      → c.get_array (c.put_array n ++ rest) ≡ some (some n, rest)
  pub u16_law :
      (n : ℕ) (rest : Bytes) → n < 2 ^ 16 → c.get_u16 (c.put_u16 n ++ rest) ≡ some (n, rest)
  pub u32_law :
      (n : ℕ) (rest : Bytes) → n < 2 ^ 32 → c.get_u32 (c.put_u32 n ++ rest) ≡ some (n, rest)
  pub u64_law :
      (n : ℕ) (rest : Bytes) → n < 2 ^ 64 → c.get_u64 (c.put_u64 n ++ rest) ≡ some (n, rest)
  pub bytes_law :
      (bs rest : Bytes)
      → length bs < 2 ^ 64
      → c.get_bytes (c.put_bytes bs ++ rest) ≡ some (bs, rest)
  pub str_law :
      (s rest : Bytes)
      → length s < 2 ^ 64
      → c.is_utf8 s ≡ true
      → c.get_str (c.put_str s ++ rest) ≡ some (s, rest)
  -- ASCII is UTF-8.
  pub ascii_law : (s : Bytes) → all (λ b. ltb b 128) s ≡ true → c.is_utf8 s ≡ true
  pub null_law : (rest : Bytes) → c.get_null (c.put_null ++ rest) ≡ some rest
  pub datatype_str_law : (s rest : Bytes) → c.datatype (c.put_str s ++ rest) ≡ some string
  pub datatype_null_law : (rest : Bytes) → c.datatype (c.put_null ++ rest) ≡ some null
  -- The types of the results.
  pub u16_range : (bs : Bytes) (n : ℕ) (rest : Bytes) → c.get_u16 bs ≡ some (n, rest) → n < 2 ^ 16
  pub u64_range : (bs : Bytes) (n : ℕ) (rest : Bytes) → c.get_u64 bs ≡ some (n, rest) → n < 2 ^ 64
  -- Items are written in their shortest form.
  pub array_size : (n : ℕ) → length (c.put_array n) ≡ head_size n
  pub u16_size : (n : ℕ) → length (c.put_u16 n) ≡ head_size n
  pub u64_size : (n : ℕ) → length (c.put_u64 n) ≡ head_size n
  pub bytes_size : (bs : Bytes) → length (c.put_bytes bs) ≡ head_size (length bs) + length bs
  pub str_size : (s : Bytes) → length (c.put_str s) ≡ head_size (length s) + length s
  pub null_size : length c.put_null ≡ 1
