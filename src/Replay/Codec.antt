-- ===== src/Replay/Codec.antt =====
-- crates/core/src/protocol/replay.rs: `ReplayState::encode` and `ReplayState::decode`.
pub mod RoundTrip
use age_plugin_phone.Base.{
  ℕ, zero, suc, ◌+◌, Bool, true, false, not, Option, some, none, List, [], ◌∷◌, ◌++◌, Bytes,
  bytes_eq, length, ltb, ◌==◌, if◌then◌else◌, Result, ok, err, ok_or, ensure, refuse, ◌>>=◌, ◌>>◌,
}
use age_plugin_phone.Cbor.{Cbor}
use age_plugin_phone.Protocol.{Error, replay_state, replay_capacity}
use age_plugin_phone.Replay.{
  ReplayRole, phone_requests, desktop_responses, role_code, role_try_from, ReplayScope, ReplayEntry,
  request, response,
}
use age_plugin_phone.Replay.State.{ReplayState, validate}

abbrev pub state_version : ℕ
state_version = 2

abbrev pub request_entry : ℕ
request_entry = 1

abbrev pub response_entry : ℕ
response_entry = 2

-- `fixed::<N>`
unfoldable pub fixed : ℕ → Bytes → Result Error Bytes
fixed n bytes = if length bytes == n then ok bytes else err replay_state

unfoldable pub is_empty : Bytes → Bool
is_empty [] = true
is_empty (b ∷ bs) = false

module _ (c : Cbor) where
  open c use {put_array, put_u16, put_u64, put_bytes, get_array, get_u16, get_u64, get_bytes}

  -- An entry, and what the encoder writes behind it.
  unfoldable pub encode_entry : ReplayEntry → Bytes → Bytes
  encode_entry (request id nonce expires) rest =
      put_array 4
      ++ (put_u16 request_entry ++ (put_bytes id ++ (put_bytes nonce ++ (put_u64 expires ++ rest))))
  encode_entry (response digest expires) rest =
      put_array 3 ++ (put_u16 response_entry ++ (put_bytes digest ++ (put_u64 expires ++ rest)))

  unfoldable pub encode_entries : List ReplayEntry → Bytes
  unfolding encode_entry
  encode_entries [] = []
  encode_entries (e ∷ es) = encode_entry e (encode_entries es)

  unfoldable pub encode : ReplayState → Bytes
  encode s =
      put_array 6
      ++ (put_u16 state_version
          ++ (put_u16 (role_code s.scope.role)
              ++ (put_bytes s.scope.desktop_id
                  ++ (put_bytes s.scope.identity_id
                      ++ (put_u64 s.last_seen_unix
                          ++ (put_array (length s.entries) ++ encode_entries s.entries))))))

  unfoldable pub exact_array : ℕ → Bytes → Result Error Bytes
  exact_array expected d = do
    (size, d) ← ok_or (get_array d) replay_state
    ensure (elim size [ none ↦ false | some n ↦ n == expected ]) replay_state
    ok d

  -- `fixed(decoder.bytes()?)?`
  unfoldable pub fixed_bytes : ℕ → Bytes → Result Error (Bytes × Bytes)
  unfolding fixed
  fixed_bytes n d = do
    (bytes, d) ← ok_or (get_bytes d) replay_state
    bytes ← fixed n bytes
    ok (bytes, d)

  unfoldable pub decode_entry : ReplayRole → Bytes → Result Error (ReplayEntry × Bytes)
  decode_entry phone_requests d = do
    d ← exact_array 4 d
    (kind, d) ← ok_or (get_u16 d) replay_state
    ensure (kind == request_entry) replay_state
    (id, d) ← fixed_bytes 16 d
    (nonce, d) ← fixed_bytes 32 d
    (expires, d) ← ok_or (get_u64 d) replay_state
    ok (request id nonce expires, d)
  decode_entry desktop_responses d = do
    d ← exact_array 3 d
    (kind, d) ← ok_or (get_u16 d) replay_state
    ensure (kind == response_entry) replay_state
    (digest, d) ← fixed_bytes 32 d
    (expires, d) ← ok_or (get_u64 d) replay_state
    ok (response digest expires, d)

  -- The loop over `0..count`.
  unfoldable pub decode_entries : ReplayRole → ℕ → Bytes → Result Error (List ReplayEntry × Bytes)
  decode_entries role zero d = ok ([], d)
  decode_entries role (suc n) d = do
    (e, d) ← decode_entry role d
    (es, d) ← decode_entries role n d
    ok (e ∷ es, d)

  unfoldable pub decode : Bytes → ℕ → Result Error ReplayState
  unfolding is_empty
  decode encoded capacity = do
    d ← exact_array 6 encoded
    (version, d) ← ok_or (get_u16 d) replay_state
    ensure (version == state_version) replay_state
    (code, d) ← ok_or (get_u16 d) replay_state
    role ← role_try_from code
    (desktop_id, d) ← fixed_bytes 16 d
    (identity_id, d) ← fixed_bytes 16 d
    (last_seen, d) ← ok_or (get_u64 d) replay_state
    (size, d) ← ok_or (get_array d) replay_state
    count ← ok_or size replay_state
    refuse (ltb capacity count) replay_capacity
    (entries, d) ← decode_entries role count d
    ensure (is_empty d) replay_state
    let state : ReplayState = record {
      scope = record { role = role; desktop_id = desktop_id; identity_id = identity_id };
      last_seen_unix = last_seen;
      entries = entries;
    }
    validate state capacity
    ensure (bytes_eq (encode state) encoded) replay_state
    ok state
