-- ===== src/Replay/State/Memory.antt =====
-- A token that was consumed stays in the state until it has expired.
use age_plugin_phone.Base.{
  ℕ, ◌^◌, ◌≤◌, ◌<◌, ◌≡◌, refl, sym, ◌⊎◌, inl, inr, Bool, true, false, List, [], ◌∷◌, ◌++◌, arith,
  Bytes, bytes_eq_refl, All-append, All-retain, any, retain, Bool-cases, ok,
}
use mathlib.Core.Path.{subst}
use age_plugin_phone.Protocol.Time.{validate_request_time_iff}
use age_plugin_phone.Replay.{
  ReplayScope, ReplayEntry, request, expires_at_unix, entry_lt, insert, sort,
}
use age_plugin_phone.Replay.Order.{All-sort}
use age_plugin_phone.Replay.State.{
  ReplayState, live_at, finish, push, same_request, consume_request,
}
use age_plugin_phone.Replay.State.Preserve.{added, consume_request_ok}
use age_plugin_phone.Replay.Codec.RoundTrip.{FitsEntry, Fits}

abbrev pub In : ReplayEntry → List ReplayEntry → Type 0
In e [] = ⊥
In e (f ∷ fs) = (f ≡ e) ⊎ In e fs

In-retain :
    (e : ReplayEntry) (keep : ReplayEntry → Bool) (es : List ReplayEntry)
    → keep e ≡ true
    → In e es
    → In e (retain keep es)
In-retain e keep [] k h = h
In-retain e keep (f ∷ fs) k (inl p) =
    let kept : keep f ≡ true = rw p k in
    subst (λ b. In e (elim b [ true ↦ f ∷ retain keep fs | false ↦ retain keep fs ])) (sym kept)
      (inl p)
In-retain e keep (f ∷ fs) k (inr h) =
    elim (keep f) as (λ b. In e (elim b [ true ↦ f ∷ retain keep fs | false ↦ retain keep fs ])) [
      | true ↦ inr (In-retain e keep fs k h)
      | false ↦ In-retain e keep fs k h
    ]

In-append_left : (e : ReplayEntry) (es fs : List ReplayEntry) → In e es → In e (es ++ fs)
In-append_left e [] fs h = absurd h
In-append_left e (f ∷ es) fs (inl p) = inl p
In-append_left e (f ∷ es) fs (inr h) = inr (In-append_left e es fs h)

In-append_last : (e : ReplayEntry) (es : List ReplayEntry) → In e (es ++ (e ∷ []))
In-append_last e [] = inl refl
In-append_last e (f ∷ es) = inr (In-append_last e es)

In-insert : (e f : ReplayEntry) (es : List ReplayEntry) → ((f ≡ e) ⊎ In e es) → In e (insert f es)
unfolding insert
In-insert e f [] h = h
In-insert e f (g ∷ es) h = elim (Bool-cases (entry_lt f g)) [
  | inl y ↦ rw y h
  | inr n ↦ rw n (elim h [
    | inl p ↦ inr (In-insert e f es (inl p))
    | inr (inl p) ↦ inl p
    | inr (inr q) ↦ inr (In-insert e f es (inr q))
  ])
]

In-sort : (e : ReplayEntry) (es : List ReplayEntry) → In e es → In e (sort es)
unfolding sort
In-sort e [] h = h
In-sort e (f ∷ es) (inl p) = In-insert e f (sort es) (inl p)
In-sort e (f ∷ es) (inr h) = In-insert e f (sort es) (inr (In-sort e es h))

-- The state knows the entry, or its clock has passed the entry's expiry.
abbrev pub Remembers : ReplayEntry → ReplayState → Type 0
Remembers e s = In e s.entries ⊎ (expires_at_unix e < s.last_seen_unix)

pub added-Remembers_self :
    (e : ReplayEntry) (now : ℕ) (s : ReplayState) → Remembers e (added e now s)
unfolding added finish push
added-Remembers_self e now s = inl (
    In-sort e (retain (live_at now) s.entries ++ (e ∷ []))
      (In-append_last e (retain (live_at now) s.entries)))

pub added-Remembers :
    (e f : ReplayEntry) (now : ℕ) (s : ReplayState)
    → s.last_seen_unix ≤ now
    → Remembers e s
    → Remembers e (added f now s)
unfolding added finish push
added-Remembers e f now s l (inr past) = inr (omega arith)
added-Remembers e f now s l (inl h) = elim (Bool-cases (live_at now e)) [
  | inl live ↦ inl (
      In-sort e (retain (live_at now) s.entries ++ (f ∷ [])) (
        In-append_left e (retain (live_at now) s.entries) (f ∷ [])
          (In-retain e (live_at now) s.entries live h)))
  | inr dead ↦ inr (unfold live_at in ground arith)
]

pub added-Fits :
    (e : ReplayEntry) (now : ℕ) (s : ReplayState)
    → Fits s
    → now < 2 ^ 64
    → FitsEntry e
    → Fits (added e now s)
unfolding added finish push
added-Fits e now s f t h = record {
  desktop_fits = f.desktop_fits;
  identity_fits = f.identity_fits;
  time_fits = t;
  entries_fit = All-sort FitsEntry (retain (live_at now) s.entries ++ (e ∷ [])) (
      All-append FitsEntry (retain (live_at now) s.entries) (e ∷ [])
        (All-retain FitsEntry (live_at now) s.entries f.entries_fit) (h, tt));
}

no_match :
    (p : ReplayEntry → Bool) (e : ReplayEntry) (es : List ReplayEntry)
    → In e es
    → any p es ≡ false
    → p e ≡ false
no_match p e [] h n = absurd h
no_match p e (f ∷ es) (inl q) n = rw (← q) (ground arith)
no_match p e (f ∷ es) (inr h) n = no_match p e es h (ground arith)

-- A request that shares a token with a remembered one is accepted only after that one has expired.
pub accepted_later :
    (id nonce id' nonce' : Bytes) (expires expires' now : ℕ) (scope : ReplayScope) (capacity : ℕ)
    (s : ReplayState)
    → Remembers (request id nonce expires) s
    → ((id' ≡ id) ⊎ (nonce' ≡ nonce))
    → (consume_request scope id' nonce' expires' now capacity s).0 ≡ ok tt
    → (expires < now) × (expires < expires')
accepted_later id nonce id' nonce' expires expires' now scope capacity s r same h =
    let (_, _, clock, time, unseen, _, _) =
      consume_request_ok scope id' nonce' expires' now capacity s h in
    let ahead = ((validate_request_time_iff expires' now).0 time).0 in
    let past : expires < now = elim r [
      | inr p ↦ omega arith
      | inl m ↦ elim (Bool-cases (live_at now (request id nonce expires))) [
        | inr dead ↦ unfold live_at in ground arith
        | inl live ↦ absurd (clash_of m live unseen same)
      ]
    ] in
    (past, omega arith)
  where
    clash_of :
        In (request id nonce expires) s.entries
        → live_at now (request id nonce expires) ≡ true
        → any (same_request id' nonce') (retain (live_at now) s.entries) ≡ false
        → ((id' ≡ id) ⊎ (nonce' ≡ nonce))
        → ⊥
    clash_of m live unseen same =
        let missed : same_request id' nonce' (request id nonce expires) ≡ false =
          no_match (same_request id' nonce') (request id nonce expires)
            (retain (live_at now) s.entries)
            (In-retain (request id nonce expires) (live_at now) s.entries live m) unseen in
        unfold same_request in ground (arith, bytes_eq_refl id, bytes_eq_refl nonce, missed)
