-- ===== src/Replay/Guard/Accept.antt =====
-- What an accepted request means for the guard, and for every later one.
use age_plugin_phone.Base.{
  ℕ, ◌^◌, ◌<◌, ◌≡◌, refl, sym, ap, ◌∙◌, ◌⊎◌, inl, inr, false, List, arith, Bytes, length, All,
  Bool-cases, Result, ok, err,
}
use mathlib.Core.Path.{subst}
use age_plugin_phone.Cbor.{Cbor, IsCbor}
use age_plugin_phone.Protocol.{Error, replay_state}
use age_plugin_phone.Replay.{phone_requests, ReplayScope, request, validate_capacity}
use age_plugin_phone.Replay.State.{ReplayState, consume_request}
use age_plugin_phone.Replay.State.Valid.{IsValid}
use age_plugin_phone.Replay.State.Preserve.{consume_request_ok}
use age_plugin_phone.Replay.State.Memory.{
  Remembers, added-Remembers_self, added-Remembers, accepted_later,
}
use age_plugin_phone.Replay.Codec.{encode}
use age_plugin_phone.Replay.Codec.RoundTrip.{Fits}
use age_plugin_phone.Replay.Guard.{
  Write, written, failed_before, failed_after, FileReplayGuard, commit_if_ok, guard_request,
}
use age_plugin_phone.Replay.Guard.{create}
use age_plugin_phone.Replay.Guard.Once.{
  Event, FitsEvent, run, Tracks, run-Tracks, guard_request-Tracks,
}
use age_plugin_phone.Replay.State.{new}

-- A guard as `create` and `open` make it, and as every step leaves it.
abbrev pub IsSound : Cbor → FileReplayGuard → Type 0
IsSound c g = Tracks c (λ s. Unit {0}) g

module _ (c : Cbor) where
  commit_if_ok_ok :
      (w : Write) (r : Result Error (Unit {0})) (next : ReplayState) (g : FileReplayGuard)
      → (commit_if_ok c w (r, next) g).0 ≡ ok tt
      → (r ≡ ok tt)
        × (g.poisoned ≡ false)
        × ((commit_if_ok c w (r, next) g).1 ≡ record g { state = next; file = encode c next })
  unfolding commit_if_ok
  commit_if_ok_ok w (err e) next g k = cc
  commit_if_ok_ok written (ok _) next g k = ground arith
  commit_if_ok_ok failed_before (ok _) next g k = ground arith
  commit_if_ok_ok failed_after (ok _) next g k = ground arith

  guard_request_ok :
      (w : Write) (d i id nonce : Bytes) (expires now : ℕ) (g : FileReplayGuard)
      → (guard_request c w d i id nonce expires now g).0 ≡ ok tt
      → let run =
          consume_request
            (record { role = phone_requests; desktop_id = d; identity_id = i })
            id
            nonce
            expires
            now
            g.capacity
            g.state in
        (run.0 ≡ ok tt)
        × ((guard_request c w d i id nonce expires now g).1
            ≡ record g { state = run.1; file = encode c run.1 })
  unfolding guard_request
  guard_request_ok w d i id nonce expires now g k = elim (Bool-cases g.poisoned) [
    | inl y ↦
        (let e : (guard_request c w d i id nonce expires now g).0 ≡ err replay_state = simp y in cc)
    | inr n ↦
        (let called : guard_request c w d i id nonce expires now g
              ≡ commit_if_ok c w
                  (consume_request
                    (record { role = phone_requests; desktop_id = d; identity_id = i }) id nonce
                    expires now g.capacity g.state)
                  g =
            simp n in
          let (consumed, _, result) = commit_if_ok_ok w _ _ g (ap (λ p. p.0) (sym called) ∙ k) in
          (consumed, ap (λ p. p.1) called ∙ result))
  ]

module _ (c : Cbor) (h : IsCbor c) where
  -- A guard that `create` returns for a scope with 16-byte identifiers, at a 64-bit time, is sound.
  pub create-IsSound :
      (w : Write) (scope : ReplayScope) (capacity now : ℕ) (g : FileReplayGuard)
      → length scope.desktop_id ≡ 16
      → length scope.identity_id ≡ 16
      → now < 2 ^ 64
      → create c w scope capacity now ≡ ok g
      → IsSound c g
  create-IsSound written scope capacity now g ld li t e =
      let made : FileReplayGuard = record {
        state = new scope now;
        capacity = capacity;
        poisoned = false;
        file = encode c (new scope now);
      } in
      let fits : validate_capacity capacity ≡ ok tt = unfold create in ground arith in
      let same : made ≡ g = unfold create in ground arith in
      let v : IsValid (new scope now) capacity =
        unfold new in
        (record {
          capacity_fits = fits;
          bounded = omega arith;
          live = tt;
          sorted = tt;
          of_role = tt;
          distinct = tt;
        }) in
      let f : Fits (new scope now) =
        unfold new in
        (record { desktop_fits = ld; identity_fits = li; time_fits = t; entries_fit = tt }) in
      subst (IsSound c) same (record {
        memory_valid = v;
        memory_fits = f;
        memory_holds = tt;
        disk = new scope now;
        disk_file = refl;
        disk_valid = v;
        disk_fits = f;
        disk_holds = tt;
      })
  create-IsSound failed_before scope capacity now g ld li t e = unfold create in ground arith
  create-IsSound failed_after scope capacity now g ld li t e = unfold create in ground arith

  -- Whatever the guard is asked, whatever the writes do, and however often the file is opened again,
  -- a sound guard stays sound: the states in memory and on disk are valid, and the file is the encoding
  -- of a valid state. The tokens asked for have the sizes of their types.
  pub run-IsSound :
      (es : List Event) (g : FileReplayGuard)
      → All FitsEvent es
      → IsSound c g
      → IsSound c (run c es g)
  run-IsSound es g f t = run-Tracks c h (λ s. Unit {0}) (λ e s u l v. tt) es g f t

  module _ (w : Write) (d i id nonce : Bytes) (expires now : ℕ) (g : FileReplayGuard)
      (sound : IsSound c g) (id_fits : length id ≡ 16) (nonce_fits : length nonce ≡ 32)
      (accepted : (guard_request c w d i id nonce expires now g).0 ≡ ok tt) where
    accepted-Tracks :
        Tracks c
          (Remembers (request id nonce expires))
          (guard_request c w d i id nonce expires now g).1
    accepted-Tracks =
        let scope : ReplayScope = record {
          role = phone_requests;
          desktop_id = d;
          identity_id = i;
        } in
        let (consumed, result) = guard_request_ok c w d i id nonce expires now g accepted in
        let next = (consume_request scope id nonce expires now g.capacity g.state).1 in
        let (_, _, _, _, _, _, added_result) =
          consume_request_ok scope id nonce expires now g.capacity g.state consumed in
        let kept : Remembers (request id nonce expires) next =
          subst (Remembers (request id nonce expires)) (sym added_result)
            (added-Remembers_self (request id nonce expires) now g.state) in
        let after =
          guard_request-Tracks c h (λ s. Unit {0}) (λ e t s l u. tt) w d i id nonce expires now g
            id_fits nonce_fits sound in
        let valid = subst (Tracks c (λ s. Unit {0})) result after in
        subst (Tracks c (Remembers (request id nonce expires))) (sym result) (record {
          memory_valid = valid.memory_valid;
          memory_fits = valid.memory_fits;
          memory_holds = kept;
          disk = next;
          disk_file = refl;
          disk_valid = valid.memory_valid;
          disk_fits = valid.memory_fits;
          disk_holds = kept;
        })

    -- Once a request was accepted, a request with its identifier or its nonce is accepted again only
    -- after it has expired, and only with a later expiry: the same request never is. That holds after
    -- any consumptions, failed writes and restarts in between.
    pub accepted_once :
        (es : List Event)
        → All FitsEvent es
        → (w' : Write) (d' i' id' nonce' : Bytes) (expires' now' : ℕ)
        → ((id' ≡ id) ⊎ (nonce' ≡ nonce))
        → (guard_request c w' d' i' id' nonce' expires' now'
            (run c es (guard_request c w d i id nonce expires now g).1)).0
          ≡ ok tt
        → (expires < now') × (expires < expires')
    accepted_once es fits w' d' i' id' nonce' expires' now' same again =
        let later = run c es (guard_request c w d i id nonce expires now g).1 in
        let t =
          run-Tracks c h (Remembers (request id nonce expires))
            (added-Remembers (request id nonce expires)) es
            (guard_request c w d i id nonce expires now g).1 fits accepted-Tracks in
        let (consumed, _) = guard_request_ok c w' d' i' id' nonce' expires' now' later again in
        accepted_later id nonce id' nonce' expires expires' now'
          (record { role = phone_requests; desktop_id = d'; identity_id = i' }) later.capacity
          later.state t.memory_holds same consumed
