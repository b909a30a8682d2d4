-- ===== src/Replay/Codec/RoundTrip.antt =====
-- A valid replay state is read back as it was written, and only such states are read.
use age_plugin_phone.Base.{
  ℕ, ◌^◌, ◌<◌, ◌≤◌, ◌≡◌, refl, false, List, [], ◌∷◌, ◌++◌, arith, Bytes, bytes_eq_refl,
  bytes_eq_sound, length, All, ltb, ok,
}
use age_plugin_phone.Cbor.{Cbor, IsCbor}
use age_plugin_phone.Replay.{
  ReplayRole, phone_requests, desktop_responses, role_code, role_try_from, ReplayEntry, request,
  response, validate_capacity,
}
use age_plugin_phone.Replay.State.{ReplayState}
use age_plugin_phone.Replay.State.Valid.{IsValid, HasRole, validate_iff}
use age_plugin_phone.Replay.Codec.{
  encode_entry, encode_entries, encode, exact_array, fixed_bytes, decode_entry, decode_entries,
  decode,
}

-- The ranges of the Rust types.
abbrev pub FitsEntry : ReplayEntry → Type 0
FitsEntry (request id nonce e) = (length id ≡ 16) × (length nonce ≡ 32) × (e < 2 ^ 64)
FitsEntry (response digest e) = (length digest ≡ 32) × (e < 2 ^ 64)

pub record Fits (s : ReplayState) : Type 0 where
  pub desktop_fits : length s.scope.desktop_id ≡ 16
  pub identity_fits : length s.scope.identity_id ≡ 16
  pub time_fits : s.last_seen_unix < 2 ^ 64
  pub entries_fit : All FitsEntry s.entries

module _ (c : Cbor) (h : IsCbor c) where
  exact_array_lem :
      (n : ℕ) (rest : Bytes) → n < 2 ^ 64 → exact_array c n (c.put_array n ++ rest) ≡ ok rest
  unfolding exact_array
  exact_array_lem n rest l = rw (h.array_law n rest l) (ground arith)

  fixed_bytes_lem :
      (n : ℕ) (bs rest : Bytes)
      → length bs ≡ n
      → n < 2 ^ 64
      → fixed_bytes c n (c.put_bytes bs ++ rest) ≡ ok (bs, rest)
  unfolding fixed_bytes
  fixed_bytes_lem n bs rest l k = rw (h.bytes_law bs rest (omega arith)) (ground arith)

  decode_entry_lem :
      (role : ReplayRole) (e : ReplayEntry) (rest : Bytes)
      → HasRole role e
      → FitsEntry e
      → decode_entry c role (encode_entry c e rest) ≡ ok (e, rest)
  unfolding decode_entry encode_entry
  decode_entry_lem phone_requests (request id nonce e) rest r (i, n, t) = rw (
    exact_array_lem 4
        (c.put_u16 1 ++ (c.put_bytes id ++ (c.put_bytes nonce ++ (c.put_u64 e ++ rest))))
        (omega arith),
    h.u16_law 1 (c.put_bytes id ++ (c.put_bytes nonce ++ (c.put_u64 e ++ rest))) (omega arith),
    fixed_bytes_lem 16 id (c.put_bytes nonce ++ (c.put_u64 e ++ rest)) i (omega arith),
    fixed_bytes_lem 32 nonce (c.put_u64 e ++ rest) n (omega arith),
    h.u64_law e rest t,
  )
  decode_entry_lem phone_requests (response digest e) rest r f = absurd r
  decode_entry_lem desktop_responses (request id nonce e) rest r f = absurd r
  decode_entry_lem desktop_responses (response digest e) rest r (d, t) = rw (
    exact_array_lem 3 (c.put_u16 2 ++ (c.put_bytes digest ++ (c.put_u64 e ++ rest))) (omega arith),
    h.u16_law 2 (c.put_bytes digest ++ (c.put_u64 e ++ rest)) (omega arith),
    fixed_bytes_lem 32 digest (c.put_u64 e ++ rest) d (omega arith),
    h.u64_law e rest t,
  )

  decode_entries_lem :
      (role : ReplayRole) (es : List ReplayEntry)
      → All (HasRole role) es
      → All FitsEntry es
      → decode_entries c role (length es) (encode_entries c es) ≡ ok (es, [])
  unfolding decode_entries encode_entries
  decode_entries_lem role [] r f = refl
  decode_entries_lem role (e ∷ es) r f =
      rw (decode_entry_lem role e (encode_entries c es) r.0 f.0, decode_entries_lem role es r.1 f.1)

  role_try_from_lem : (role : ReplayRole) → role_try_from (role_code role) ≡ ok role
  unfolding role_try_from
  role_try_from_lem phone_requests = refl
  role_try_from_lem desktop_responses = refl

  role_code_lt : (role : ReplayRole) → role_code role < 2 ^ 16
  role_code_lt phone_requests = omega arith
  role_code_lt desktop_responses = omega arith

  capacity_le : (n : ℕ) → validate_capacity n ≡ ok tt → n ≤ 16384
  unfolding validate_capacity
  capacity_le n v = ground arith

  -- Reading what was written for a valid state whose fields have the sizes of their types gives that
  -- state.
  pub decode-encode :
      (s : ReplayState) (capacity : ℕ)
      → IsValid s capacity
      → Fits s
      → decode c (encode c s) capacity ≡ ok s
  unfolding decode encode
  decode-encode s capacity v f =
      let bound = capacity_le capacity v.capacity_fits in
      let n = length s.entries in
      let r7 = c.put_array n ++ encode_entries c s.entries in
      let r6 = c.put_u64 s.last_seen_unix ++ r7 in
      let r5 = c.put_bytes s.scope.identity_id ++ r6 in
      let r4 = c.put_bytes s.scope.desktop_id ++ r5 in
      let r3 = c.put_u16 (role_code s.scope.role) ++ r4 in
      let r2 = c.put_u16 2 ++ r3 in
      let small : ltb capacity n ≡ false = (let b = v.bounded in ground arith) in
      rw (
        exact_array_lem 6 r2 (omega arith),
        h.u16_law 2 r3 (omega arith),
        h.u16_law (role_code s.scope.role) r4 (role_code_lt s.scope.role),
        role_try_from_lem s.scope.role,
        fixed_bytes_lem 16 s.scope.desktop_id r5 f.desktop_fits (omega arith),
        fixed_bytes_lem 16 s.scope.identity_id r6 f.identity_fits (omega arith),
        h.u64_law s.last_seen_unix r7 f.time_fits,
        h.array_law n (encode_entries c s.entries) (omega (arith, v.bounded, bound)),
        small,
        decode_entries_lem s.scope.role s.entries v.of_role f.entries_fit,
        (validate_iff s capacity).1 v,
        bytes_eq_refl (encode c s),
      )

  -- What `decode` accepts is the encoding of the state that it returns, and that state is valid.
  pub decode_sound :
      (bs : Bytes) (capacity : ℕ) (s : ReplayState)
      → decode c bs capacity ≡ ok s
      → IsValid s capacity × (encode c s ≡ bs)
  unfolding decode
  decode_sound bs capacity s e =
      ground (arith, (validate_iff s capacity).0, bytes_eq_sound (encode c s) bs)
