-- ===== src/Tests/Rfc8949.antt =====
-- A codec that meets the laws of `Cbor`: the definite-length items of RFC 8949 that the code uses,
-- with ASCII for text.
use age_plugin_phone.Base.{
  ℕ, zero, suc, ◌+◌, ◌*◌, ◌/◌, ◌%◌, ◌^◌, ◌<◌, ◌≡◌, refl, ap, ◌∙◌, Bool, true, Option, some, none,
  [], ◌∷◌, ◌++◌, append_assoc, Bytes, length, take, drop, take-append, drop-append, all, ltb, leb,
  ◌==◌, if◌then◌else◌, arith, ◌&&◌, length-append, lt→ltb,
}
use age_plugin_phone.Cbor.{Cbor, IsCbor, Datatype, null, string, other, head_size}

-- `k` bytes, the most significant first.
unfoldable pub big_endian : ℕ → ℕ → Bytes
big_endian zero n = []
big_endian (suc k) n = (n / 256 ^ k % 256) ∷ big_endian k n

unfoldable pub read_big_endian : ℕ → ℕ → Bytes → Option (ℕ × Bytes)
read_big_endian zero acc bs = some (acc, bs)
read_big_endian (suc k) acc [] = none
read_big_endian (suc k) acc (b ∷ bs) = read_big_endian k (acc * 256 + b) bs

-- The first byte holds the major type and a short count, or says how many bytes the count takes.
abbrev put_head : ℕ → ℕ → Bytes
put_head major n =
    if ltb n 24
    then (32 * major + n) ∷ []
    else if ltb n (2 ^ 8)
    then (32 * major + 24) ∷ big_endian 1 n
    else if ltb n (2 ^ 16)
    then (32 * major + 25) ∷ big_endian 2 n
    else if ltb n (2 ^ 32)
    then (32 * major + 26) ∷ big_endian 4 n
    else (32 * major + 27) ∷ big_endian 8 n

unfoldable pub get_count : ℕ → Bytes → Option (ℕ × Bytes)
get_count info bs =
    if ltb info 24
    then some (info, bs)
    else if info == 24
    then read_big_endian 1 0 bs
    else if info == 25
    then read_big_endian 2 0 bs
    else if info == 26
    then read_big_endian 4 0 bs
    else if info == 27
    then read_big_endian 8 0 bs
    else none

unfoldable pub get_head : ℕ → Bytes → Option (ℕ × Bytes)
unfolding get_count read_big_endian
get_head major [] = none
get_head major (b ∷ bs) = if b / 32 == major then get_count (b % 32) bs else none

big_endian_two :
    (n : ℕ) (rest : Bytes)
    → n < 2 ^ 16
    → read_big_endian 2 0 (big_endian 2 n ++ rest) ≡ some (n, rest)
unfolding big_endian read_big_endian
big_endian_two n rest h = ap (λ (m : ℕ). some (m, rest)) (omega arith)

big_endian_four :
    (n : ℕ) (rest : Bytes)
    → n < 2 ^ 32
    → read_big_endian 4 0 (big_endian 4 n ++ rest) ≡ some (n, rest)
unfolding big_endian read_big_endian
big_endian_four n rest h = ap (λ (m : ℕ). some (m, rest)) (omega arith)

big_endian_eight :
    (n : ℕ) (rest : Bytes)
    → n < 2 ^ 64
    → read_big_endian 8 0 (big_endian 8 n ++ rest) ≡ some (n, rest)
unfolding big_endian read_big_endian
big_endian_eight n rest h = ap (λ (m : ℕ). some (m, rest)) (omega arith)

big_endian_one :
    (n : ℕ) (rest : Bytes)
    → n < 2 ^ 8
    → read_big_endian 1 0 (big_endian 1 n ++ rest) ≡ some (n, rest)
unfolding big_endian read_big_endian
big_endian_one n rest h = ap (λ (m : ℕ). some (m, rest)) (omega arith)

get_head-put_head :
    (major n : ℕ) (rest : Bytes)
    → n < 2 ^ 64
    → get_head major (put_head major n ++ rest) ≡ some (n, rest)
unfolding get_head get_count
get_head-put_head major n rest h = ground (
  arith,
  big_endian_one n rest,
  big_endian_two n rest,
  big_endian_four n rest,
  big_endian_eight n rest,
)

-- A count below `2 ^ w`.
unfoldable pub get_uint : ℕ → Bytes → Option (ℕ × Bytes)
unfolding get_head
get_uint w bs = elim (get_head 0 bs) [
  | none ↦ none
  | some (n, rest) ↦ if ltb n (2 ^ w) then some (n, rest) else none
]

unfoldable pub get_definite : Bytes → Option (Option ℕ × Bytes)
unfolding get_head
get_definite bs = elim (get_head 4 bs) [ none ↦ none | some (n, rest) ↦ some (some n, rest) ]

unfoldable pub get_run : ℕ → (Bytes → Bool) → Bytes → Option (Bytes × Bytes)
unfolding get_head
get_run major fits bs = elim (get_head major bs) [
  | none ↦ none
  | some (n, rest) ↦
      if leb n (length rest) && fits (take n rest) then some (take n rest, drop n rest) else none
]

unfoldable pub get_simple : Bytes → Option Bytes
get_simple [] = none
get_simple (b ∷ bs) = if b == 246 then some bs else none

unfoldable pub kind : Bytes → Option Datatype
kind [] = none
kind (b ∷ bs) = some (if b == 246 then null else if b / 32 == 3 then string else other)

abbrev is_ascii : Bytes → Bool
is_ascii = all (λ b. ltb b 128)

get_uint_lem :
    (w n : ℕ) (rest : Bytes)
    → n < 2 ^ 64
    → n < 2 ^ w
    → get_uint w (put_head 0 n ++ rest) ≡ some (n, rest)
unfolding get_uint
get_uint_lem w n rest h k = rw (get_head-put_head 0 n rest h, lt→ltb n (2 ^ w) k, get_uint)

get_uint_range :
    (w : ℕ) (bs : Bytes) (n : ℕ) (rest : Bytes) → get_uint w bs ≡ some (n, rest) → n < 2 ^ w
unfolding get_uint
get_uint_range w bs n rest h = ground arith

get_definite_lem :
    (n : ℕ) (rest : Bytes) → n < 2 ^ 64 → get_definite (put_head 4 n ++ rest) ≡ some (some n, rest)
unfolding get_definite
get_definite_lem n rest h = rw (get_head-put_head 4 n rest h, get_definite)

get_run_lem :
    (major : ℕ) (fits : Bytes → Bool) (bs rest : Bytes)
    → length bs < 2 ^ 64
    → fits bs ≡ true
    → get_run major fits ((put_head major (length bs) ++ bs) ++ rest) ≡ some (bs, rest)
unfolding get_run
get_run_lem major fits bs rest h k = rw (append_assoc (put_head major (length bs)) bs rest) (
    rw (get_head-put_head major (length bs) (bs ++ rest) h, get_run)
      (ground (arith, length-append bs rest, take-append bs rest, drop-append bs rest)))

kind_str : (s rest : Bytes) → kind ((put_head 3 (length s) ++ s) ++ rest) ≡ some string
unfolding kind
kind_str s rest = ground arith

length-big_endian : (k n : ℕ) → length (big_endian k n) ≡ k
unfolding big_endian
length-big_endian zero n = refl
length-big_endian (suc k) n = ap suc (length-big_endian k n)

length-put_head : (major n : ℕ) → length (put_head major n) ≡ head_size n
length-put_head major n = ground (
  arith,
  length-big_endian 1 n,
  length-big_endian 2 n,
  length-big_endian 4 n,
  length-big_endian 8 n,
)

length-put_run :
    (major : ℕ) (bs : Bytes)
    → length (put_head major (length bs) ++ bs) ≡ head_size (length bs) + length bs
length-put_run major bs =
    length-append (put_head major (length bs)) bs
    ∙ ap (λ (n : ℕ). n + length bs) (length-put_head major (length bs))

abbrev pub rfc8949 : Cbor
rfc8949 = record {
  put_array = put_head 4;
  put_u16 = put_head 0;
  put_u32 = put_head 0;
  put_u64 = put_head 0;
  put_bytes = λ bs. put_head 2 (length bs) ++ bs;
  put_str = λ s. put_head 3 (length s) ++ s;
  put_null = 246 ∷ [];
  get_array = get_definite;
  get_u16 = get_uint 16;
  get_u32 = get_uint 32;
  get_u64 = get_uint 64;
  get_bytes = get_run 2 (λ bs. true);
  get_str = get_run 3 is_ascii;
  get_null = get_simple;
  datatype = kind;
  is_utf8 = is_ascii;
}

pub rfc8949-IsCbor : IsCbor rfc8949
unfolding get_simple kind
rfc8949-IsCbor = record {
  array_law = get_definite_lem;
  u16_law = λ n rest h. get_uint_lem 16 n rest (omega arith) h;
  u32_law = λ n rest h. get_uint_lem 32 n rest (omega arith) h;
  u64_law = λ n rest h. get_uint_lem 64 n rest h h;
  bytes_law = λ bs rest h. get_run_lem 2 (λ bs. true) bs rest h refl;
  str_law = λ s rest h k. get_run_lem 3 is_ascii s rest h k;
  ascii_law = λ s h. h;
  null_law = λ rest. refl;
  datatype_str_law = kind_str;
  datatype_null_law = λ rest. refl;
  u16_range = get_uint_range 16;
  u64_range = get_uint_range 64;
  array_size = length-put_head 4;
  u16_size = length-put_head 0;
  u64_size = length-put_head 0;
  bytes_size = length-put_run 2;
  str_size = length-put_run 3;
  null_size = refl;
}
