-- ===== src/Replay/State/Valid.antt =====
-- What `ReplayState::validate` accepts, and that every consumption keeps it.
use age_plugin_phone.Base.{
  ℕ, ◌≤◌, ◌≡◌, ◌↔◌, refl, Bool, true, false, not, ◌||◌, List, [], ◌∷◌, arith, Bytes, bytes_eq_comm,
  length, All, any, ltb, ok,
}
use age_plugin_phone.Replay.{
  ReplayRole, phone_requests, desktop_responses, ReplayEntry, request, response, expires_at_unix,
  entry_lt, validate_capacity,
}
use age_plugin_phone.Replay.Order.{Sorted, Apart, Distinct, Below-trans}
use age_plugin_phone.Replay.State.{ReplayState, out_of_order, contains, validate_entries, validate}

abbrev pub HasRole : ReplayRole → ReplayEntry → Type 0
HasRole phone_requests (request id nonce e) = Unit
HasRole desktop_responses (response digest e) = Unit
HasRole _ _ = ⊥

-- A state that may be written: its entries are of the scope's kind, live, in ascending order,
-- pairwise different in every token, and within the capacity.
pub record IsValid (s : ReplayState) (capacity : ℕ) : Type 0 where
  pub capacity_fits : validate_capacity capacity ≡ ok tt
  pub bounded : length s.entries ≤ capacity
  pub live : All (λ e. s.last_seen_unix ≤ expires_at_unix e) s.entries
  pub sorted : Sorted s.entries
  pub of_role : All (HasRole s.scope.role) s.entries
  pub distinct : Distinct s.entries

Sorted-in_order : (es : List ReplayEntry) → Sorted es → out_of_order es ≡ false
unfolding out_of_order
Sorted-in_order [] s = refl
Sorted-in_order (e ∷ []) s = refl
Sorted-in_order (e ∷ f ∷ es) s = ground (arith, Sorted-in_order (f ∷ es) s.1, s.0.0)

in_order-Sorted : (es : List ReplayEntry) → out_of_order es ≡ false → Sorted es
unfolding out_of_order
in_order-Sorted [] h = tt
in_order-Sorted (e ∷ []) h = (tt, tt)
in_order-Sorted (e ∷ f ∷ es) h =
    let below : entry_lt e f ≡ true = ground arith in
    let rest = in_order-Sorted (f ∷ es) (ground arith) in
    ((below, Below-trans e f es below rest.0), rest)

-- No token of the entry is among those seen.
abbrev fresh : List Bytes → List Bytes → List Bytes → ReplayEntry → Bool
fresh ids nonces digests (request id nonce e) = not (contains id ids || contains nonce nonces)
fresh ids nonces digests (response digest e) = not (contains digest digests)

abbrev Accepted : ReplayRole → List Bytes → List Bytes → List Bytes → List ReplayEntry → Type 0
Accepted role ids nonces digests es =
    All (HasRole role) es × All (λ e. fresh ids nonces digests e ≡ true) es × Distinct es

fresh_step_request :
    (id nonce : Bytes) (x : ℕ) (ids nonces digests : List Bytes) (es : List ReplayEntry)
    → All (λ e. fresh (id ∷ ids) (nonce ∷ nonces) digests e ≡ true) es
      ↔ (All (λ e. fresh ids nonces digests e ≡ true) es × Apart (request id nonce x) es)
unfolding contains
fresh_step_request id nonce x ids nonces digests [] = (λ h. (tt, tt), λ h. tt)
fresh_step_request id nonce x ids nonces digests (request id' nonce' x' ∷ es) =
    let (f, g) = fresh_step_request id nonce x ids nonces digests es in
    (
      λ h. (
        (ground (arith, bytes_eq_comm id id', bytes_eq_comm nonce nonce'), (f h.1).0),
        (ground (arith, bytes_eq_comm id id', bytes_eq_comm nonce nonce'), (f h.1).1),
      ),
      λ h. (
        ground (arith, bytes_eq_comm id id', bytes_eq_comm nonce nonce', h.0.0, h.1.0),
        g (h.0.1, h.1.1),
      ),
    )
fresh_step_request id nonce x ids nonces digests (response d' x' ∷ es) =
    let (f, g) = fresh_step_request id nonce x ids nonces digests es in
    (λ h. ((h.0, (f h.1).0), (refl, (f h.1).1)), λ h. (h.0.0, g (h.0.1, h.1.1)))

fresh_step_response :
    (digest : Bytes) (x : ℕ) (ids nonces digests : List Bytes) (es : List ReplayEntry)
    → All (λ e. fresh ids nonces (digest ∷ digests) e ≡ true) es
      ↔ (All (λ e. fresh ids nonces digests e ≡ true) es × Apart (response digest x) es)
unfolding contains
fresh_step_response digest x ids nonces digests [] = (λ h. (tt, tt), λ h. tt)
fresh_step_response digest x ids nonces digests (request id' nonce' x' ∷ es) =
    let (f, g) = fresh_step_response digest x ids nonces digests es in
    (λ h. ((h.0, (f h.1).0), (refl, (f h.1).1)), λ h. (h.0.0, g (h.0.1, h.1.1)))
fresh_step_response digest x ids nonces digests (response d' x' ∷ es) =
    let (f, g) = fresh_step_response digest x ids nonces digests es in
    (
      λ h. (
        (ground (arith, bytes_eq_comm digest d'), (f h.1).0),
        (ground (arith, bytes_eq_comm digest d'), (f h.1).1),
      ),
      λ h. (ground (arith, bytes_eq_comm digest d', h.0.0, h.1.0), g (h.0.1, h.1.1)),
    )

validate_entries_sound :
    (role : ReplayRole) (ids nonces digests : List Bytes) (es : List ReplayEntry)
    → validate_entries role ids nonces digests es ≡ ok tt
    → Accepted role ids nonces digests es
unfolding validate_entries
validate_entries_sound role ids nonces digests [] h = (tt, tt, tt)
validate_entries_sound phone_requests ids nonces digests (request id nonce x ∷ es) h =
    let (a, b, c) =
      validate_entries_sound phone_requests (id ∷ ids) (nonce ∷ nonces) digests es (ground arith) in
    let (d, e) = (fresh_step_request id nonce x ids nonces digests es).0 b in
    ((tt, a), (ground arith, d), (e, c))
validate_entries_sound phone_requests ids nonces digests (response digest x ∷ es) h = cc
validate_entries_sound desktop_responses ids nonces digests (request id nonce x ∷ es) h = cc
validate_entries_sound desktop_responses ids nonces digests (response digest x ∷ es) h =
    let (a, b, c) =
      validate_entries_sound desktop_responses ids nonces (digest ∷ digests) es (ground arith) in
    let (d, e) = (fresh_step_response digest x ids nonces digests es).0 b in
    ((tt, a), (ground arith, d), (e, c))

validate_entries_complete :
    (role : ReplayRole) (ids nonces digests : List Bytes) (es : List ReplayEntry)
    → Accepted role ids nonces digests es
    → validate_entries role ids nonces digests es ≡ ok tt
unfolding validate_entries
validate_entries_complete role ids nonces digests [] h = refl
validate_entries_complete phone_requests ids nonces digests (request id nonce x ∷ es) (a, b, c) =
    let rest =
      validate_entries_complete phone_requests (id ∷ ids) (nonce ∷ nonces) digests es
        (a.1, (fresh_step_request id nonce x ids nonces digests es).1 (b.1, c.0), c.1) in
    let unseen = b.0 in ground (arith, rest, unseen)
validate_entries_complete phone_requests ids nonces digests (response digest x ∷ es) (a, b, c) =
    absurd a.0
validate_entries_complete desktop_responses ids nonces digests (request id nonce x ∷ es) (a, b, c) =
    absurd a.0
validate_entries_complete desktop_responses ids nonces digests (response digest x ∷ es) (a, b, c) =
    let rest =
      validate_entries_complete desktop_responses ids nonces (digest ∷ digests) es
        (a.1, (fresh_step_response digest x ids nonces digests es).1 (b.1, c.0), c.1) in
    let unseen = b.0 in ground (arith, rest, unseen)

All-fresh : (es : List ReplayEntry) → All (λ e. fresh [] [] [] e ≡ true) es
unfolding contains
All-fresh [] = tt
All-fresh (request id nonce x ∷ es) = (refl, All-fresh es)
All-fresh (response digest x ∷ es) = (refl, All-fresh es)

live_iff :
    (t : ℕ) (es : List ReplayEntry)
    → (any (λ e. ltb (expires_at_unix e) t) es ≡ false) ↔ All (λ e. t ≤ expires_at_unix e) es
live_iff t [] = (λ h. tt, λ h. refl)
live_iff t (e ∷ es) =
    let (f, g) = live_iff t es in
    (λ h. (ground arith, f (ground arith)), λ h. ground (arith, g h.1, h.0))

-- `validate` accepts exactly the valid states.
pub validate_iff :
    (s : ReplayState) (capacity : ℕ) → (validate s capacity ≡ ok tt) ↔ IsValid s capacity
unfolding validate
validate_iff s capacity = (sound, complete)
  where
    sound : validate s capacity ≡ ok tt → IsValid s capacity
    sound h =
        let entries = validate_entries s.scope.role [] [] [] s.entries in
        let accepted : entries ≡ ok tt = ground arith in
        let (a, b, c) = validate_entries_sound s.scope.role [] [] [] s.entries accepted in
        record {
          capacity_fits = ground arith;
          bounded = ground arith;
          live = (live_iff s.last_seen_unix s.entries).0 (ground arith);
          sorted = in_order-Sorted s.entries (ground arith);
          of_role = a;
          distinct = c;
        }

    complete : IsValid s capacity → validate s capacity ≡ ok tt
    complete v =
        let accepted =
          validate_entries_complete s.scope.role [] [] [] s.entries
            (v.of_role, All-fresh s.entries, v.distinct) in
        let live = (live_iff s.last_seen_unix s.entries).1 v.live in
        let ordered = Sorted-in_order s.entries v.sorted in
        let fits = v.capacity_fits in
        let bound = v.bounded in ground (arith, accepted, live, ordered, fits, bound)
