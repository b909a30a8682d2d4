-- ===== src/Replay/Guard.antt =====
-- crates/core/src/protocol/replay.rs: `FileReplayGuard` (the same text for Unix and for Windows), and
-- the store `ReplayGuard` of the tests.
-- The platform storage is outside: `open` is given what `read_private_file` returned (`none` for
-- any failure of the path check, the lock or the read), and each call of `atomic_replace` or
-- `persist_create` is given what the storage did. A failed replacement may have reached the disk.
pub mod Once
pub mod Accept
use age_plugin_phone.Base.{
  ℕ, Bool, true, false, not, ◌||◌, Option, some, none, List, [], ◌∷◌, Bytes, if◌then◌else◌, Result,
  ok, err, ok_or, ensure, ◌>>=◌, ◌>>◌,
}
use age_plugin_phone.Cbor.{Cbor}
use age_plugin_phone.Protocol.{Error, replay_state, replay}
use age_plugin_phone.Replay.{
  phone_requests, desktop_responses, ReplayScope, scope_eq, validate_capacity, ReplayStore,
}
use age_plugin_phone.Replay.State.{ReplayState, new, consume_request, consume_response, contains}
use age_plugin_phone.Replay.Codec.{encode, decode}

-- What one write did: it succeeded, it failed and left the file, or it failed after the file was
-- replaced.
pub data Write : Type 0 where
  written failed_before failed_after : Write

pub record FileReplayGuard : Type 0 where
  pub state : ReplayState
  pub capacity : ℕ
  pub poisoned : Bool
  -- What the file holds.
  pub file : Bytes

module _ (c : Cbor) where
  unfoldable pub create : Write → ReplayScope → ℕ → ℕ → Result Error FileReplayGuard
  create written scope capacity now = do
    validate_capacity capacity
    let state = new scope now
    ok (record { state = state; capacity = capacity; poisoned = false; file = encode c state })
  create _ scope capacity now = do validate_capacity capacity; err replay_state

  unfoldable pub open_guard : Option Bytes → ReplayScope → ℕ → Result Error FileReplayGuard
  open_guard read expected_scope capacity = do
    validate_capacity capacity
    encoded ← ok_or read replay_state
    state ← decode c encoded capacity
    ensure (scope_eq state.scope expected_scope) replay_state
    ok (record { state = state; capacity = capacity; poisoned = false; file = encoded })

  unfoldable pub replace :
      Write → ReplayState → FileReplayGuard → Result Error (Unit {0}) × FileReplayGuard
  replace written next g = (ok tt, record g { state = next; file = encode c next })
  replace failed_before next g = (err replay_state, record g { poisoned = true })
  replace failed_after next g =
      (err replay_state, record g { poisoned = true; file = encode c next })

  unfoldable pub commit :
      Write → ReplayState → FileReplayGuard → Result Error (Unit {0}) × FileReplayGuard
  unfolding replace
  commit w next g = if g.poisoned then (err replay_state, g) else replace w next g

  -- The outcome of the consumption on a copy of the state decides whether the copy is committed.
  unfoldable pub commit_if_ok :
      Write
      → Result Error (Unit {0}) × ReplayState
      → FileReplayGuard
      → Result Error (Unit {0}) × FileReplayGuard
  unfolding commit
  commit_if_ok w (ok _, next) g = commit w next g
  commit_if_ok w (err e, next) g = (err e, g)

  unfoldable pub guard_request :
      Write
      → Bytes
      → Bytes
      → Bytes
      → Bytes
      → ℕ
      → ℕ
      → FileReplayGuard
      → Result Error (Unit {0}) × FileReplayGuard
  unfolding commit_if_ok
  guard_request w desktop_id identity_id request_id nonce expires now g =
      if g.poisoned
      then (err replay_state, g)
      else commit_if_ok w
          (consume_request
            (record { role = phone_requests; desktop_id = desktop_id; identity_id = identity_id })
            request_id nonce expires now g.capacity g.state)
          g

  unfoldable pub guard_response :
      Write
      → Bytes
      → Bytes
      → Bytes
      → ℕ
      → ℕ
      → FileReplayGuard
      → Result Error (Unit {0}) × FileReplayGuard
  unfolding commit_if_ok
  guard_response w desktop_id identity_id digest expires now g =
      if g.poisoned
      then (err replay_state, g)
      else commit_if_ok w
          (consume_response
            (record {
              role = desktop_responses;
              desktop_id = desktop_id;
              identity_id = identity_id;
            })
            digest expires now g.capacity g.state)
          g

  -- `impl ReplayStore for FileReplayGuard`, each write ending as `w` says.
  abbrev pub file_store : Write → ReplayStore FileReplayGuard
  file_store w = record { consume_request = guard_request w; consume_response = guard_response w }

-- The store of the tests, which does not look at scopes and times.
pub record ReplayGuard : Type 0 where
  pub requests : List Bytes
  pub nonces : List Bytes
  pub responses : List Bytes

unfoldable pub memory_request :
    Bytes → Bytes → Bytes → Bytes → ℕ → ℕ → ReplayGuard → Result Error (Unit {0}) × ReplayGuard
unfolding contains
memory_request desktop identity request_id nonce expires now g =
    if contains request_id g.requests || contains nonce g.nonces
    then (err replay, g)
    else (ok tt, record g { requests = request_id ∷ g.requests; nonces = nonce ∷ g.nonces })

unfoldable pub memory_response :
    Bytes → Bytes → Bytes → ℕ → ℕ → ReplayGuard → Result Error (Unit {0}) × ReplayGuard
unfolding contains
memory_response desktop identity digest expires now g =
    if contains digest g.responses
    then (err replay, g)
    else (ok tt, record g { responses = digest ∷ g.responses })

abbrev pub memory_store : ReplayStore ReplayGuard
memory_store = record { consume_request = memory_request; consume_response = memory_response }
