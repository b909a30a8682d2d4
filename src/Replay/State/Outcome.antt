-- ===== src/Replay/State/Outcome.antt =====
-- Exactly when `ReplayState` of crates/core/src/protocol/replay.rs takes a token.
use age_plugin_phone.Base.{
  ℕ, ◌+◌, ◌^◌, ◌≤◌, ◌<◌, ◌≡◌, ◌≢◌, ◌↔◌, ◌⊎◌, refl, ap, true, false, &&-parts, Bool-cases, inl, inr,
  List, [], ◌∷◌, Bytes, bytes_eq, bytes_eq_sound, bytes_eq_iff, bytes_eq-false_iff, any, All,
  retain, length, ltb, leb, if◌then◌else◌, arith, ok,
}
use age_plugin_phone.Protocol.Time.{validate_request_time, validate_request_time_iff}
use age_plugin_phone.Replay.{
  ReplayRole, ReplayScope, phone_requests, desktop_responses, scope_eq, same_role, ReplayEntry,
  request, response, expires_at_unix,
}
use age_plugin_phone.Replay.State.{
  ReplayState, prepare, reserve, live_at, same_request, same_response, consume_request,
  consume_response,
}

-- The checks of a consumption, one by one.
consume_request_checks :
    (scope : ReplayScope) (id nonce : Bytes) (expires now capacity : ℕ) (s : ReplayState)
    → ((consume_request scope id nonce expires now capacity s).0 ≡ ok tt) ↔ (
        (validate_request_time expires now ≡ ok tt)
        × (scope_eq s.scope scope ≡ true)
        × (same_role s.scope.role phone_requests ≡ true)
        × (s.last_seen_unix ≤ now)
        × (any (same_request id nonce) (retain (live_at now) s.entries) ≡ false)
        × (length (retain (live_at now) s.entries) < capacity))
unfolding consume_request prepare reserve
consume_request_checks scope id nonce expires now capacity s =
    (λ h. ground arith, λ (e1, e2, e3, e4, e5, e6). ground arith)

same_role_iff : (r t : ReplayRole) → (same_role r t ≡ true) ↔ (r ≡ t)
same_role_iff phone_requests phone_requests = (λ e. refl, λ e. refl)
same_role_iff desktop_responses desktop_responses = (λ e. refl, λ e. refl)
same_role_iff phone_requests desktop_responses = (λ e. cc, λ e. cc)
same_role_iff desktop_responses phone_requests = (λ e. cc, λ e. cc)

scope_eq_iff : (s t : ReplayScope) → (scope_eq s t ≡ true) ↔ (s ≡ t)
unfolding scope_eq
scope_eq_iff s t = (
  λ e.
      let (role, ids) = &&-parts (same_role s.role t.role) _ e in
      let (desktop, identity) = &&-parts (bytes_eq s.desktop_id t.desktop_id) _ ids in
      let r = (same_role_iff s.role t.role).0 role in
      let d = bytes_eq_sound s.desktop_id t.desktop_id desktop in
      let i = bytes_eq_sound s.identity_id t.identity_id identity in cc,
  λ e.
      let role = (same_role_iff s.role t.role).1 (ap (λ u. u.role) e) in
      let desktop = (bytes_eq_iff s.desktop_id t.desktop_id).1 (ap (λ u. u.desktop_id) e) in
      let identity = (bytes_eq_iff s.identity_id t.identity_id).1 (ap (λ u. u.identity_id) e) in
      ground arith,
)

-- The entry is of another request, by its identifier and by its nonce.
abbrev pub OfAnother : Bytes → Bytes → ReplayEntry → Type 0
OfAnother id nonce (request id' nonce' expires) = (id' ≢ id) × (nonce' ≢ nonce)
OfAnother id nonce (response digest expires) = Unit

-- How many entries have not expired.
unfoldable pub live_count : ℕ → List ReplayEntry → ℕ
live_count now [] = 0
live_count now (e ∷ es) = (if ltb (expires_at_unix e) now then 0 else 1) + live_count now es

same_request_iff :
    (id nonce : Bytes) (e : ReplayEntry) → (same_request id nonce e ≡ false) ↔ OfAnother id nonce e
unfolding same_request
same_request_iff id nonce (request id' nonce' expires) = (
  λ h. (
    (bytes_eq-false_iff id' id).0 (ground arith),
    (bytes_eq-false_iff nonce' nonce).0 (ground arith),
  ),
  λ (p, q).
      let a = (bytes_eq-false_iff id' id).1 p in
      let b = (bytes_eq-false_iff nonce' nonce).1 q in ground arith,
)
same_request_iff id nonce (response digest expires) = (λ h. tt, λ h. refl)

none_live_iff :
    (id nonce : Bytes) (now : ℕ) (es : List ReplayEntry)
    → (any (same_request id nonce) (retain (live_at now) es) ≡ false)
      ↔ All (λ e. (expires_at_unix e < now) ⊎ OfAnother id nonce e) es
unfolding live_at
none_live_iff id nonce now [] = (λ h. tt, λ h. refl)
none_live_iff id nonce now (e ∷ es) =
    let (f, g) = none_live_iff id nonce now es in
    let (p, q) = same_request_iff id nonce e in
    (
      λ h. elim (Bool-cases (leb now (expires_at_unix e))) [
        | inl live ↦ (inr (p (ground arith)), f (ground arith))
        | inr gone ↦ (inl (ground arith), f (ground arith))
      ],
      λ (first, rest). elim first [
        | inl gone ↦ (let b = g rest in ground arith)
        | inr another ↦ (let a = q another in let b = g rest in ground arith)
      ],
    )

length-retain-live_count :
    (now : ℕ) (es : List ReplayEntry) → length (retain (live_at now) es) ≡ live_count now es
unfolding live_at live_count
length-retain-live_count now [] = refl
length-retain-live_count now (e ∷ es) = ground (arith, length-retain-live_count now es)

-- A request is taken exactly when it has not expired, expires in 300 seconds at the latest and before
-- 2^63, the state is of its pairing and of the phone's side, the clock has not gone back, every entry
-- has expired or is of another identifier and of another nonce, and fewer entries than the capacity
-- have not expired.
pub consume_request_iff :
    (scope : ReplayScope) (id nonce : Bytes) (expires now capacity : ℕ) (s : ReplayState)
    → ((consume_request scope id nonce expires now capacity s).0 ≡ ok tt) ↔ (
        (now ≤ expires)
        × (expires ≤ now + 300)
        × (expires < 2 ^ 63)
        × (s.scope ≡ scope)
        × (s.scope.role ≡ phone_requests)
        × (s.last_seen_unix ≤ now)
        × All (λ e. (expires_at_unix e < now) ⊎ OfAnother id nonce e) s.entries
        × (live_count now s.entries < capacity))
consume_request_iff scope id nonce expires now capacity s =
    let (check, take) = consume_request_checks scope id nonce expires now capacity s in
    let (in_time, time) = validate_request_time_iff expires now in
    let (of_scope, scope_of) = scope_eq_iff s.scope scope in
    let (of_role, role_of) = same_role_iff s.scope.role phone_requests in
    let (apart, fresh) = none_live_iff id nonce now s.entries in
    let count = length-retain-live_count now s.entries in
    (
      λ h.
          let (e1, e2, e3, e4, e5, e6) = check h in
          let (t1, t2, t3) = in_time e1 in
          (t1, t2, t3, of_scope e2, of_role e3, e4, apart e5, omega (arith, count)),
      λ (t1, t2, t3, e2, e3, e4, e5, e6).
          take (time (t1, t2, t3), scope_of e2, role_of e3, e4, fresh e5, omega (arith, count)),
    )

-- A response is taken exactly when the time of its request is acceptable, the state is of its pairing
-- and of the desktop's side, the clock has not gone back, no entry that has not expired holds its
-- digest, and the entries that have not expired leave room.
pub consume_response_iff :
    (scope : ReplayScope) (digest : Bytes) (expires now capacity : ℕ) (s : ReplayState)
    → ((consume_response scope digest expires now capacity s).0 ≡ ok tt) ↔ (
        (validate_request_time expires now ≡ ok tt)
        × (scope_eq s.scope scope ≡ true)
        × (same_role s.scope.role desktop_responses ≡ true)
        × (s.last_seen_unix ≤ now)
        × (any (same_response digest) (retain (live_at now) s.entries) ≡ false)
        × (length (retain (live_at now) s.entries) < capacity))
unfolding consume_response prepare reserve
consume_response_iff scope digest expires now capacity s =
    (λ h. ground arith, λ (e1, e2, e3, e4, e5, e6). ground arith)
