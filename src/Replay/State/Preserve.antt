-- ===== src/Replay/State/Preserve.antt =====
-- Every consumption keeps a replay state valid, on success and on every error.
use age_plugin_phone.Base.{
  ℕ, ◌≤◌, ◌<◌, ◌≡◌, ◌⊎◌, refl, sym, ◌∙◌, Bool, true, false, List, [], ◌∷◌, ◌++◌, arith, Bytes,
  length, length-append, All-append, All-imp, All-retain, All-retain_kept, length-retain, any,
  retain, inl, inr, ok, err, Result-cases,
}
use mathlib.Core.Path.{subst}
use age_plugin_phone.Protocol.{Error}
use age_plugin_phone.Protocol.Time.{validate_request_time, validate_request_time_iff}
use age_plugin_phone.Replay.{
  ReplayRole, phone_requests, desktop_responses, same_role, ReplayScope, scope_eq, ReplayEntry,
  request, response, expires_at_unix, entry_lt,
}
use age_plugin_phone.Replay.Order.{
  clash, clash_comm, Sorted, Apart, Distinct, All-sort, sort-Sorted, sort-Distinct, length-sort,
}
use age_plugin_phone.Replay.State.{
  ReplayState, live_at, prepare, reserve, finish, push, same_request, same_response,
  consume_request, consume_response,
}
use age_plugin_phone.Replay.State.Valid.{IsValid, HasRole}

retain-Sorted :
    (keep : ReplayEntry → Bool) (es : List ReplayEntry) → Sorted es → Sorted (retain keep es)
retain-Sorted keep [] s = tt
retain-Sorted keep (e ∷ es) s =
    elim (keep e) as (λ b. Sorted (elim b [ true ↦ e ∷ retain keep es | false ↦ retain keep es ])) [
      | true ↦ (All-retain (λ f. entry_lt e f ≡ true) keep es s.0, retain-Sorted keep es s.1)
      | false ↦ retain-Sorted keep es s.1
    ]

retain-Distinct :
    (keep : ReplayEntry → Bool) (es : List ReplayEntry) → Distinct es → Distinct (retain keep es)
retain-Distinct keep [] d = tt
retain-Distinct keep (e ∷ es) d =
    elim (keep e)
      as (λ b. Distinct (elim b [ true ↦ e ∷ retain keep es | false ↦ retain keep es ])) [
        | true ↦ (All-retain (λ f. clash e f ≡ false) keep es d.0, retain-Distinct keep es d.1)
        | false ↦ retain-Distinct keep es d.1
      ]

append-Distinct :
    (e : ReplayEntry) (es : List ReplayEntry) → Apart e es → Distinct es → Distinct (es ++ (e ∷ []))
append-Distinct e [] a d = (tt, tt)
append-Distinct e (f ∷ es) a d = (
  All-append (λ g. clash f g ≡ false) es (e ∷ []) d.0 (clash_comm f e ∙ a.0, tt),
  append-Distinct e es a.1 d.1,
)

-- Forgetting what has expired at `now`.
pub prepared : ℕ → ReplayState → ReplayState
prepared now s = record s { entries = retain (live_at now) s.entries }

prepared-IsValid :
    (now capacity : ℕ) (s : ReplayState) → IsValid s capacity → IsValid (prepared now s) capacity
unfolding prepared
prepared-IsValid now capacity s v = record {
  capacity_fits = v.capacity_fits;
  bounded = omega (arith, v.bounded, length-retain (live_at now) s.entries);
  live = All-retain (λ e. s.last_seen_unix ≤ expires_at_unix e) (live_at now) s.entries v.live;
  sorted = retain-Sorted (live_at now) s.entries v.sorted;
  of_role = All-retain (HasRole s.scope.role) (live_at now) s.entries v.of_role;
  distinct = retain-Distinct (live_at now) s.entries v.distinct;
}

kept_live : (now : ℕ) (e : ReplayEntry) → live_at now e ≡ true → now ≤ expires_at_unix e
unfolding live_at
kept_live now e h = ground arith

-- What a successful consumption leaves.
unfoldable pub added : ReplayEntry → ℕ → ReplayState → ReplayState
added e now s = finish now (push e (record s { entries = retain (live_at now) s.entries }))

added-IsValid :
    (e : ReplayEntry) (now capacity : ℕ) (s : ReplayState)
    → IsValid s capacity
    → now ≤ expires_at_unix e
    → HasRole s.scope.role e
    → Apart e (retain (live_at now) s.entries)
    → length (retain (live_at now) s.entries) < capacity
    → IsValid (added e now s) capacity
unfolding added finish push prepared
added-IsValid e now capacity s v h r a room =
    let old = retain (live_at now) s.entries in
    let w = prepared-IsValid now capacity s v in
    let all = append-Distinct e old a w.distinct in
    let live =
      All-append (λ f. now ≤ expires_at_unix f) old (e ∷ [])
        (All-imp (λ f. live_at now f ≡ true) (λ f. now ≤ expires_at_unix f) old (kept_live now)
          (All-retain_kept (live_at now) s.entries))
        (h, tt) in
    record {
      capacity_fits = v.capacity_fits;
      bounded = omega (arith, length-sort (old ++ (e ∷ [])), length-append old (e ∷ []));
      live = All-sort (λ f. now ≤ expires_at_unix f) (old ++ (e ∷ [])) live;
      sorted = sort-Sorted (old ++ (e ∷ [])) all;
      of_role =
          All-sort (HasRole s.scope.role) (old ++ (e ∷ []))
            (All-append (HasRole s.scope.role) old (e ∷ []) w.of_role (r, tt));
      distinct = sort-Distinct (old ++ (e ∷ [])) all;
    }

same_request-Apart :
    (id nonce : Bytes) (x : ℕ) (es : List ReplayEntry)
    → any (same_request id nonce) es ≡ false
    → Apart (request id nonce x) es
unfolding same_request
same_request-Apart id nonce x [] h = tt
same_request-Apart id nonce x (request id' nonce' x' ∷ es) h =
    (ground arith, same_request-Apart id nonce x es (ground arith))
same_request-Apart id nonce x (response d' x' ∷ es) h =
    (refl, same_request-Apart id nonce x es (ground arith))

same_response-Apart :
    (digest : Bytes) (x : ℕ) (es : List ReplayEntry)
    → any (same_response digest) es ≡ false
    → Apart (response digest x) es
unfolding same_response
same_response-Apart digest x [] h = tt
same_response-Apart digest x (request id' nonce' x' ∷ es) h =
    (refl, same_response-Apart digest x es (ground arith))
same_response-Apart digest x (response d' x' ∷ es) h =
    (ground arith, same_response-Apart digest x es (ground arith))

module _ (scope : ReplayScope) (id nonce : Bytes) (expires now capacity : ℕ) (s : ReplayState) where
  pub consume_request_ok :
      (consume_request scope id nonce expires now capacity s).0 ≡ ok tt
      → (scope_eq s.scope scope ≡ true)
        × (same_role s.scope.role phone_requests ≡ true)
        × (s.last_seen_unix ≤ now)
        × (validate_request_time expires now ≡ ok tt)
        × (any (same_request id nonce) (retain (live_at now) s.entries) ≡ false)
        × (length (retain (live_at now) s.entries) < capacity)
        × ((consume_request scope id nonce expires now capacity s).1
            ≡ added (request id nonce expires) now s)
  unfolding consume_request prepare reserve added
  consume_request_ok h = ground arith

  pub consume_request_err :
      (e : Error)
      → (consume_request scope id nonce expires now capacity s).0 ≡ err e
      → ((consume_request scope id nonce expires now capacity s).1 ≡ s)
        ⊎ ((consume_request scope id nonce expires now capacity s).1 ≡ prepared now s)
  unfolding consume_request prepare reserve prepared
  consume_request_err e h = ground arith

module _ (scope : ReplayScope) (digest : Bytes) (expires now capacity : ℕ) (s : ReplayState) where
  pub consume_response_ok :
      (consume_response scope digest expires now capacity s).0 ≡ ok tt
      → (scope_eq s.scope scope ≡ true)
        × (same_role s.scope.role desktop_responses ≡ true)
        × (s.last_seen_unix ≤ now)
        × (validate_request_time expires now ≡ ok tt)
        × (any (same_response digest) (retain (live_at now) s.entries) ≡ false)
        × (length (retain (live_at now) s.entries) < capacity)
        × ((consume_response scope digest expires now capacity s).1
            ≡ added (response digest expires) now s)
  unfolding consume_response prepare reserve added
  consume_response_ok h = ground arith

  pub consume_response_err :
      (e : Error)
      → (consume_response scope digest expires now capacity s).0 ≡ err e
      → ((consume_response scope digest expires now capacity s).1 ≡ s)
        ⊎ ((consume_response scope digest expires now capacity s).1 ≡ prepared now s)
  unfolding consume_response prepare reserve prepared
  consume_response_err e h = ground arith

pub requests_role :
    (role : ReplayRole) (id nonce : Bytes) (x : ℕ)
    → same_role role phone_requests ≡ true
    → HasRole role (request id nonce x)
requests_role phone_requests id nonce x h = tt
requests_role desktop_responses id nonce x h = cc

pub responses_role :
    (role : ReplayRole) (digest : Bytes) (x : ℕ)
    → same_role role desktop_responses ≡ true
    → HasRole role (response digest x)
responses_role phone_requests digest x h = cc
responses_role desktop_responses digest x h = tt

-- Whatever a request consumption answers, the state that it leaves is valid if the state before was.
pub consume_request-IsValid :
    (scope : ReplayScope) (id nonce : Bytes) (expires now capacity : ℕ) (s : ReplayState)
    → IsValid s capacity
    → IsValid (consume_request scope id nonce expires now capacity s).1 capacity
consume_request-IsValid scope id nonce expires now capacity s v =
    elim (Result-cases (consume_request scope id nonce expires now capacity s).0) [
      | inl (_, h) ↦
          (let (_, role, _, time, new_tokens, room, e) =
              consume_request_ok scope id nonce expires now capacity s h in
            subst (λ t. IsValid t capacity) (sym e)
              (added-IsValid (request id nonce expires) now capacity s v
                ((validate_request_time_iff expires now).0 time).0
                (requests_role s.scope.role id nonce expires role)
                (same_request-Apart id nonce expires (retain (live_at now) s.entries) new_tokens)
                room))
      | inr (x, h) ↦ elim (consume_request_err scope id nonce expires now capacity s x h) [
        | inl e ↦ subst (λ t. IsValid t capacity) (sym e) v
        | inr e ↦ subst (λ t. IsValid t capacity) (sym e) (prepared-IsValid now capacity s v)
      ]
    ]

-- Whatever a response consumption answers, the state that it leaves is valid if the state before was.
pub consume_response-IsValid :
    (scope : ReplayScope) (digest : Bytes) (expires now capacity : ℕ) (s : ReplayState)
    → IsValid s capacity
    → IsValid (consume_response scope digest expires now capacity s).1 capacity
consume_response-IsValid scope digest expires now capacity s v =
    elim (Result-cases (consume_response scope digest expires now capacity s).0) [
      | inl (_, h) ↦
          (let (_, role, _, time, new_tokens, room, e) =
              consume_response_ok scope digest expires now capacity s h in
            subst (λ t. IsValid t capacity) (sym e)
              (added-IsValid (response digest expires) now capacity s v
                ((validate_request_time_iff expires now).0 time).0
                (responses_role s.scope.role digest expires role)
                (same_response-Apart digest expires (retain (live_at now) s.entries) new_tokens)
                room))
      | inr (x, h) ↦ elim (consume_response_err scope digest expires now capacity s x h) [
        | inl e ↦ subst (λ t. IsValid t capacity) (sym e) v
        | inr e ↦ subst (λ t. IsValid t capacity) (sym e) (prepared-IsValid now capacity s v)
      ]
    ]
