-- ===== src/Tests/Replay.antt =====
-- Concrete states and guards of crates/core/src/protocol/replay.rs, and times.
use age_plugin_phone.Base.{
  ℕ, ◌+◌, ◌^◌, ◌≤◌, ◌<◌, ◌≡◌, ◌↔◌, refl, inr, ◌⊎◌, false, [], ◌∷◌, bytes_eq, codes, replicate, ok,
  err, arith,
}
use age_plugin_phone.Protocol.{malformed}
use age_plugin_phone.Protocol.Time.{
  validate_request_time, request_expiry, request_expiry-validate_request_time,
}
use age_plugin_phone.Replay.{
  phone_requests, desktop_responses, ReplayScope, request, response, validate_capacity, scope_eq,
  sort, insert,
}
use age_plugin_phone.Replay.State.{
  ReplayState, new, consume_request, validate, validate_entries, out_of_order, prepare, reserve,
  live_at, same_request, push, finish,
}
use age_plugin_phone.Base.{All}
use age_plugin_phone.Replay.{expires_at_unix}
use age_plugin_phone.Replay.State.Outcome.{OfAnother, live_count, consume_request_iff}
use age_plugin_phone.Replay.State.Valid.{IsValid, validate_iff}
use age_plugin_phone.Replay.Codec.{encode, decode}
use age_plugin_phone.Replay.Codec.RoundTrip.{Fits, decode-encode, decode_sound}
use age_plugin_phone.Replay.Guard.{
  written, failed_after, FileReplayGuard, create, guard_request, commit_if_ok, commit, replace,
}
use age_plugin_phone.Replay.Guard.Once.{requests, reopens, run}
use age_plugin_phone.Replay.Guard.Accept.{IsSound, create-IsSound, run-IsSound, accepted_once}
use age_plugin_phone.Tests.Rfc8949.{rfc8949, rfc8949-IsCbor}

abbrev some_scope : ReplayScope
some_scope = record {
  role = phone_requests;
  desktop_id = codes "a desktop's name";
  identity_id = codes "an identity name";
}

abbrev response_scope : ReplayScope
response_scope = record some_scope { role = desktop_responses }

-- One live request.
abbrev some_state : ReplayState
some_state = record {
  scope = some_scope;
  last_seen_unix = 1000;
  entries = request (replicate 16 1) (replicate 32 2) 1300 ∷ [];
}

validate-some_state : validate some_state 16 ≡ ok tt
unfolding validate validate_capacity validate_entries out_of_order
validate-some_state = refl

some_state-IsValid : IsValid some_state 16
some_state-IsValid = (validate_iff some_state 16).0 validate-some_state

validate_iff_example : (validate some_state 16 ≡ ok tt) ↔ IsValid some_state 16
validate_iff_example = validate_iff some_state 16

abbrev response_state : ReplayState
response_state = record {
  scope = response_scope;
  last_seen_unix = 1000;
  entries = response (replicate 32 2) 1300 ∷ [];
}

validate-response_state : validate response_state 16 ≡ ok tt
unfolding validate validate_capacity validate_entries out_of_order
validate-response_state = refl

some_state-Fits : Fits some_state
some_state-Fits = record {
  desktop_fits = refl;
  identity_fits = refl;
  time_fits = omega arith;
  entries_fit = ((refl, refl, omega arith), tt);
}

decode-encode_example : decode rfc8949 (encode rfc8949 some_state) 16 ≡ ok some_state
decode-encode_example =
    decode-encode rfc8949 rfc8949-IsCbor some_state 16 some_state-IsValid some_state-Fits

decode_sound_example :
    IsValid some_state 16 × (encode rfc8949 some_state ≡ encode rfc8949 some_state)
decode_sound_example =
    decode_sound rfc8949 rfc8949-IsCbor (encode rfc8949 some_state) 16 some_state
      (decode-encode rfc8949 rfc8949-IsCbor some_state 16 some_state-IsValid some_state-Fits)

abbrev some_guard : FileReplayGuard
some_guard = record {
  state = new some_scope 900;
  capacity = 16;
  poisoned = false;
  file = encode rfc8949 (new some_scope 900);
}

created : create rfc8949 written some_scope 16 900 ≡ ok some_guard
unfolding create validate_capacity
created = refl

run-IsSound_example : IsSound rfc8949 (
    run rfc8949
      (requests failed_after
          (codes "a desktop's name")
          (codes "an identity name")
          (replicate 16 1)
          (replicate 32 2)
          1300
          1000
        ∷ reopens some_scope
        ∷ [])
      some_guard)
run-IsSound_example =
    run-IsSound rfc8949 rfc8949-IsCbor
      (requests failed_after (codes "a desktop's name") (codes "an identity name") (replicate 16 1)
          (replicate 32 2) 1300 1000
        ∷ reopens some_scope
        ∷ [])
      some_guard ((refl, refl), (tt, tt))
      (create-IsSound rfc8949 rfc8949-IsCbor written some_scope 16 900 some_guard refl refl
        (omega arith) created)

first_accepted :
    (guard_request rfc8949 written
      (codes "a desktop's name")
      (codes "an identity name")
      (replicate 16 1)
      (replicate 32 2)
      1300
      1000
      some_guard).0
    ≡ ok tt
unfolding guard_request commit_if_ok commit replace consume_request prepare reserve scope_eq new
    live_at same_request push finish sort insert bytes_eq validate_request_time
first_accepted = refl

second_accepted :
    (guard_request rfc8949 written
      (codes "a desktop's name")
      (codes "an identity name")
      (replicate 16 9)
      (replicate 32 2)
      1600
      1400
      (run rfc8949 []
        (guard_request rfc8949 written
          (codes "a desktop's name")
          (codes "an identity name")
          (replicate 16 1)
          (replicate 32 2)
          1300
          1000
          some_guard).1)).0
    ≡ ok tt
unfolding run guard_request commit_if_ok commit replace consume_request prepare reserve scope_eq new
    live_at same_request push finish sort insert bytes_eq validate_request_time
second_accepted = refl

accepted_once_example : (1300 < 1400) × (1300 < 1600)
accepted_once_example =
    accepted_once rfc8949 rfc8949-IsCbor written (codes "a desktop's name")
      (codes "an identity name") (replicate 16 1) (replicate 32 2) 1300 1000 some_guard
      (create-IsSound rfc8949 rfc8949-IsCbor written some_scope 16 900 some_guard refl refl
        (omega arith) created)
      refl refl first_accepted [] tt written (codes "a desktop's name") (codes "an identity name")
      (replicate 16 9) (replicate 32 2) 1600 1400 (inr refl) second_accepted

request_expiry-validate_request_time_example :
    ((expires : ℕ) × (request_expiry 1000 ≡ ok expires)
      × ((later : ℕ)
          → 1000 ≤ later
          → (validate_request_time expires later ≡ ok tt) ↔ (later ≤ 1000 + 300)))
    ⊎ ((request_expiry 1000 ≡ err malformed) × (2 ^ 63 ≤ 1000 + 300))
request_expiry-validate_request_time_example = request_expiry-validate_request_time 1000

consume_request_iff_example :
    ((consume_request some_scope (replicate 16 3) (replicate 32 4) 1400 1100 16 some_state).0
      ≡ ok tt)
    ↔ ((1100 ≤ 1400)
        × (1400 ≤ 1100 + 300)
        × (1400 < 2 ^ 63)
        × (some_scope ≡ some_scope)
        × (phone_requests ≡ phone_requests)
        × (1000 ≤ 1100)
        × All
            (λ e. (expires_at_unix e < 1100) ⊎ OfAnother (replicate 16 3) (replicate 32 4) e)
            some_state.entries
        × (live_count 1100 some_state.entries < 16))
consume_request_iff_example =
    consume_request_iff some_scope (replicate 16 3) (replicate 32 4) 1400 1100 16 some_state
