-- ===== src/Replay/Guard/Once.antt =====
-- A consumed request is never consumed again: not by the process that consumed it, not after any
-- number of restarts, and whatever the writes did.
use age_plugin_phone.Base.{
  ℕ, ◌^◌, ◌≤◌, ◌<◌, ◌≡◌, refl, sym, ◌⊎◌, inl, inr, true, false, some, List, [], ◌∷◌, arith, Bytes,
  length, All, Bool-cases, Result, ok, err,
}
use mathlib.Core.Path.{subst}
use age_plugin_phone.Cbor.{Cbor, IsCbor}
use age_plugin_phone.Protocol.{Error, replay_state}
use age_plugin_phone.Protocol.Time.{validate_request_time, validate_request_time_iff}
use age_plugin_phone.Replay.{
  phone_requests, desktop_responses, scope_eq, ReplayScope, ReplayEntry, request, response,
}
use age_plugin_phone.Replay.State.{ReplayState, consume_request, consume_response}
use age_plugin_phone.Replay.State.Valid.{IsValid}
use age_plugin_phone.Replay.State.Preserve.{
  added, consume_request_ok, consume_response_ok, consume_request-IsValid, consume_response-IsValid,
}
use age_plugin_phone.Replay.State.Memory.{added-Fits}
use age_plugin_phone.Replay.Codec.{encode, decode}
use age_plugin_phone.Replay.Codec.RoundTrip.{Fits, decode-encode}
use age_plugin_phone.Replay.Guard.{
  Write, written, failed_before, failed_after, FileReplayGuard, open_guard, replace, commit_if_ok,
  guard_request, guard_response,
}

-- What a process does with the guard: it consumes, or it stops and the next one opens the file.
pub data Event : Type 0 where
  requests : Write → Bytes → Bytes → Bytes → Bytes → ℕ → ℕ → Event
  responses : Write → Bytes → Bytes → Bytes → ℕ → ℕ → Event
  reopens : ReplayScope → Event

abbrev pub FitsEvent : Event → Type 0
FitsEvent (requests w d i id nonce e now) = (length id ≡ 16) × (length nonce ≡ 32)
FitsEvent (responses w d i digest e now) = length digest ≡ 32
FitsEvent (reopens scope) = Unit

module _ (c : Cbor) where
  -- A process whose `open` fails has no guard; it is one that refuses everything.
  unfoldable pub step : Event → FileReplayGuard → FileReplayGuard
  step (requests w d i id nonce e now) g = (guard_request c w d i id nonce e now g).1
  step (responses w d i digest e now) g = (guard_response c w d i digest e now g).1
  step (reopens scope) g = elim (open_guard c (some g.file) scope g.capacity) [
    | ok g' ↦ g'
    | err e ↦ record g { poisoned = true }
  ]

  unfoldable pub run : List Event → FileReplayGuard → FileReplayGuard
  run [] g = g
  run (e ∷ es) g = run es (step e g)

-- `P` holds of the state in memory and of the state on disk.
pub record Tracks (c : Cbor) (P : ReplayState → Type 0) (g : FileReplayGuard) : Type 0 where
  pub memory_valid : IsValid g.state g.capacity
  pub memory_fits : Fits g.state
  pub memory_holds : P g.state
  pub disk : ReplayState
  pub disk_file : g.file ≡ encode c disk
  pub disk_valid : IsValid disk g.capacity
  pub disk_fits : Fits disk
  pub disk_holds : P disk

pub time_fits :
    (expires now : ℕ)
    → validate_request_time expires now ≡ ok tt
    → (expires < 2 ^ 64) × (now < 2 ^ 64)
time_fits expires now h =
    let (a, b, d) = (validate_request_time_iff expires now).0 h in (omega arith, omega arith)

module _ (c : Cbor) (h : IsCbor c) (P : ReplayState → Type 0) where
  -- Opening what was written for a valid state gives a guard on that state, or refuses its scope.
  open_guard_cases :
      (scope : ReplayScope) (capacity : ℕ) (file : Bytes) (s : ReplayState)
      → IsValid s capacity
      → Fits s
      → file ≡ encode c s
      → (open_guard c (some file) scope capacity
          ≡ ok (record { state = s; capacity = capacity; poisoned = false; file = file }))
        ⊎ (open_guard c (some file) scope capacity ≡ err replay_state)
  unfolding open_guard
  open_guard_cases scope capacity file s v f e =
      let read : decode c file capacity ≡ ok s = rw e (decode-encode c h s capacity v f) in
      let fits = v.capacity_fits in
      elim (Bool-cases (scope_eq s.scope scope)) [
        | inl y ↦ inl (ground (arith, read, fits, y))
        | inr n ↦ inr (ground (arith, read, fits, n))
      ]

  replace-Tracks :
      (w : Write) (next : ReplayState) (g : FileReplayGuard)
      → Tracks c P g
      → IsValid next g.capacity
      → Fits next
      → P next
      → Tracks c P (replace c w next g).1
  unfolding replace
  replace-Tracks written next g t v f p = record {
    memory_valid = v;
    memory_fits = f;
    memory_holds = p;
    disk = next;
    disk_file = refl;
    disk_valid = v;
    disk_fits = f;
    disk_holds = p;
  }
  replace-Tracks failed_before next g t v f p = record {
    memory_valid = t.memory_valid;
    memory_fits = t.memory_fits;
    memory_holds = t.memory_holds;
    disk = t.disk;
    disk_file = t.disk_file;
    disk_valid = t.disk_valid;
    disk_fits = t.disk_fits;
    disk_holds = t.disk_holds;
  }
  replace-Tracks failed_after next g t v f p = record {
    memory_valid = t.memory_valid;
    memory_fits = t.memory_fits;
    memory_holds = t.memory_holds;
    disk = next;
    disk_file = refl;
    disk_valid = v;
    disk_fits = f;
    disk_holds = p;
  }

  commit_if_ok-Tracks :
      (w : Write) (r : Result Error (Unit {0})) (next : ReplayState) (g : FileReplayGuard)
      → Tracks c P g
      → (r ≡ ok tt → IsValid next g.capacity × Fits next × P next)
      → Tracks c P (commit_if_ok c w (r, next) g).1
  unfolding commit_if_ok
  commit_if_ok-Tracks w (err e) next g t k = t
  commit_if_ok-Tracks w (ok _) next g t k = elim (Bool-cases g.poisoned) [
    | inl y ↦ simp y t
    | inr n ↦ (let (v, f, p) = k refl in simp n (replace-Tracks w next g t v f p))
  ]

  module _
      (keeps : (e : ReplayEntry) (now : ℕ) (s : ReplayState)
        → s.last_seen_unix ≤ now
        → P s
        → P (added e now s)) where
    pub guard_request-Tracks :
        (w : Write) (d i id nonce : Bytes) (expires now : ℕ) (g : FileReplayGuard)
        → length id ≡ 16
        → length nonce ≡ 32
        → Tracks c P g
        → Tracks c P (guard_request c w d i id nonce expires now g).1
    unfolding guard_request
    guard_request-Tracks w d i id nonce expires now g li ln t =
        let scope : ReplayScope = record {
          role = phone_requests;
          desktop_id = d;
          identity_id = i;
        } in
        let run = consume_request scope id nonce expires now g.capacity g.state in
        let next : run.0 ≡ ok tt → IsValid run.1 g.capacity × Fits run.1 × P run.1 = λ e.
          let (_, _, clock, time, _, _, result) =
            consume_request_ok scope id nonce expires now g.capacity g.state e in
          let (le, ln') = time_fits expires now time in
          (
            consume_request-IsValid scope id nonce expires now g.capacity g.state t.memory_valid,
            subst Fits (sym result)
                (added-Fits (request id nonce expires) now g.state t.memory_fits ln' (li, ln, le)),
            subst P (sym result)
                (keeps (request id nonce expires) now g.state clock t.memory_holds),
          ) in
        elim (Bool-cases g.poisoned) [
          | inl y ↦ simp y t
          | inr n ↦ simp n (commit_if_ok-Tracks w run.0 run.1 g t next)
        ]

    guard_response-Tracks :
        (w : Write) (d i digest : Bytes) (expires now : ℕ) (g : FileReplayGuard)
        → length digest ≡ 32
        → Tracks c P g
        → Tracks c P (guard_response c w d i digest expires now g).1
    unfolding guard_response
    guard_response-Tracks w d i digest expires now g ld t =
        let scope : ReplayScope = record {
          role = desktop_responses;
          desktop_id = d;
          identity_id = i;
        } in
        let run = consume_response scope digest expires now g.capacity g.state in
        let next : run.0 ≡ ok tt → IsValid run.1 g.capacity × Fits run.1 × P run.1 = λ e.
          let (_, _, clock, time, _, _, result) =
            consume_response_ok scope digest expires now g.capacity g.state e in
          let (le, ln') = time_fits expires now time in
          (
            consume_response-IsValid scope digest expires now g.capacity g.state t.memory_valid,
            subst Fits (sym result)
                (added-Fits (response digest expires) now g.state t.memory_fits ln' (ld, le)),
            subst P (sym result) (keeps (response digest expires) now g.state clock t.memory_holds),
          ) in
        elim (Bool-cases g.poisoned) [
          | inl y ↦ simp y t
          | inr n ↦ simp n (commit_if_ok-Tracks w run.0 run.1 g t next)
        ]

    reopens-Tracks :
        (scope : ReplayScope) (g : FileReplayGuard)
        → Tracks c P g
        → Tracks c P (step c (reopens scope) g)
    unfolding step
    reopens-Tracks scope g t =
        elim (open_guard_cases scope g.capacity g.file t.disk t.disk_valid t.disk_fits
          t.disk_file) [
            | inl e ↦
                rw (e, step)
                  (record {
                    memory_valid = t.disk_valid;
                    memory_fits = t.disk_fits;
                    memory_holds = t.disk_holds;
                    disk = t.disk;
                    disk_file = t.disk_file;
                    disk_valid = t.disk_valid;
                    disk_fits = t.disk_fits;
                    disk_holds = t.disk_holds;
                  })
            | inr e ↦
                rw (e, step)
                  (record {
                    memory_valid = t.memory_valid;
                    memory_fits = t.memory_fits;
                    memory_holds = t.memory_holds;
                    disk = t.disk;
                    disk_file = t.disk_file;
                    disk_valid = t.disk_valid;
                    disk_fits = t.disk_fits;
                    disk_holds = t.disk_holds;
                  })
          ]

    step-Tracks :
        (e : Event) (g : FileReplayGuard) → FitsEvent e → Tracks c P g → Tracks c P (step c e g)
    unfolding step
    step-Tracks (requests w d i id nonce x now) g f t =
        guard_request-Tracks w d i id nonce x now g f.0 f.1 t
    step-Tracks (responses w d i digest x now) g f t =
        guard_response-Tracks w d i digest x now g f t
    step-Tracks (reopens scope) g f t = reopens-Tracks scope g t

    pub run-Tracks :
        (es : List Event) (g : FileReplayGuard)
        → All FitsEvent es
        → Tracks c P g
        → Tracks c P (run c es g)
    unfolding run
    run-Tracks [] g f t = t
    run-Tracks (e ∷ es) g f t = run-Tracks es (step c e g) f.1 (step-Tracks e g f.0 t)
