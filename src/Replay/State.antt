-- ===== src/Replay/State.antt =====
-- crates/core/src/protocol/replay.rs: `ReplayState`.
pub mod Valid
pub mod Preserve
pub mod Memory
pub mod Outcome
use age_plugin_phone.Base.{
  ℕ, ◌+◌, ◌≡◌, Bool, true, false, not, ◌&&◌, ◌||◌, List, [], ◌∷◌, ◌++◌, Bytes, bytes_eq, length,
  any, retain, ltb, leb, ◌==◌, if◌then◌else◌, Result, ok, err,
}
use age_plugin_phone.Base.Exec.{Exec, ◌>>=◌, ◌>>◌, lift, modify, fail_if}
use age_plugin_phone.Protocol.{Error, replay, clock_rollback, replay_capacity, replay_state}
use age_plugin_phone.Protocol.Time.{validate_request_time}
use age_plugin_phone.Replay.{
  ReplayRole, phone_requests, desktop_responses, same_role, ReplayScope, scope_eq, ReplayEntry,
  request, response, expires_at_unix, entry_lt, sort, validate_capacity,
}

pub record ReplayState : Type 0 where
  pub scope : ReplayScope
  pub last_seen_unix : ℕ
  pub entries : List ReplayEntry

unfoldable pub new : ReplayScope → ℕ → ReplayState
new scope now = record { scope = scope; last_seen_unix = now; entries = [] }

unfoldable pub live_at : ℕ → ReplayEntry → Bool
live_at now e = leb now (expires_at_unix e)

unfoldable pub prepare : ReplayScope → ReplayRole → ℕ → Exec ReplayState Error (Unit {0})
prepare scope role now = do
  fail_if (λ s. not (scope_eq s.scope scope) || not (same_role s.scope.role role)) replay_state
  fail_if (λ s. ltb now s.last_seen_unix) clock_rollback
  modify (λ s. record s { entries = retain (live_at now) s.entries })

unfoldable pub reserve : ℕ → Exec ReplayState Error (Unit {0})
reserve capacity = fail_if (λ s. leb capacity (length s.entries)) replay_capacity

unfoldable pub finish : ℕ → ReplayState → ReplayState
finish now s = record s { last_seen_unix = now; entries = sort s.entries }

unfoldable pub same_request : Bytes → Bytes → ReplayEntry → Bool
same_request id nonce (request id' nonce' e) = bytes_eq id' id || bytes_eq nonce' nonce
same_request id nonce (response digest e) = false

unfoldable pub same_response : Bytes → ReplayEntry → Bool
same_response digest (request id nonce e) = false
same_response digest (response digest' e) = bytes_eq digest' digest

unfoldable pub push : ReplayEntry → ReplayState → ReplayState
push e s = record s { entries = s.entries ++ (e ∷ []) }

unfoldable pub consume_request :
    ReplayScope → Bytes → Bytes → ℕ → ℕ → ℕ → Exec ReplayState Error (Unit {0})
consume_request scope id nonce expires now capacity = do
  lift (validate_request_time expires now)
  prepare scope phone_requests now
  fail_if (λ s. any (same_request id nonce) s.entries) replay
  reserve capacity
  modify (push (request id nonce expires))
  modify (finish now)

unfoldable pub consume_response :
    ReplayScope → Bytes → ℕ → ℕ → ℕ → Exec ReplayState Error (Unit {0})
consume_response scope digest expires now capacity = do
  lift (validate_request_time expires now)
  prepare scope desktop_responses now
  fail_if (λ s. any (same_response digest) s.entries) replay
  reserve capacity
  modify (push (response digest expires))
  modify (finish now)

-- `entries.windows(2).any(|pair| pair[0] >= pair[1])`
unfoldable pub out_of_order : List ReplayEntry → Bool
out_of_order [] = false
out_of_order (e ∷ []) = false
out_of_order (e ∷ f ∷ es) = not (entry_lt e f) || out_of_order (f ∷ es)

-- The sets of the loop are lists: `contains` says whether an insertion finds the value there.
unfoldable pub contains : Bytes → List Bytes → Bool
contains b [] = false
contains b (c ∷ cs) = bytes_eq c b || contains b cs

-- The loop of `validate`.
unfoldable pub validate_entries :
    ReplayRole → List Bytes → List Bytes → List Bytes → List ReplayEntry → Result Error (Unit {0})
unfolding contains
validate_entries role ids nonces digests [] = ok tt
validate_entries phone_requests ids nonces digests (request id nonce e ∷ es) =
    let rest = validate_entries phone_requests (id ∷ ids) (nonce ∷ nonces) digests es in
    if contains id ids || contains nonce nonces then err replay_state else rest
validate_entries desktop_responses ids nonces digests (response digest e ∷ es) =
    let rest = validate_entries desktop_responses ids nonces (digest ∷ digests) es in
    if contains digest digests then err replay_state else rest
validate_entries _ ids nonces digests (_ ∷ es) = err replay_state

unfoldable pub validate : ReplayState → ℕ → Result Error (Unit {0})
validate s capacity = elim (validate_capacity capacity) [
  | err e ↦ err e
  | ok _ ↦
      if ltb capacity (length s.entries)
        || (any (λ e. ltb (expires_at_unix e) s.last_seen_unix) s.entries || out_of_order s.entries)
      then err replay_state
      else validate_entries s.scope.role [] [] [] s.entries
]
