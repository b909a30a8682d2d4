-- ===== src/Unwrap/Once.antt =====
-- What a session of crates/desktop/src/unwrap.rs can give out, whatever is done with it.
use age_plugin_phone.Base.{
  ℕ, ◌≤◌, ◌≡◌, refl, sym, ap, ◌∙◌, inl, inr, Bool, true, false, List, [], ◌∷◌, ◌++◌, arith, Bytes,
  length, All, Result, ok, err, Result-cases, Bool-cases,
}
use mathlib.Core.Path.{subst}
use mathlib.Core.List.{append-nil}
use age_plugin_phone.Base.Exec.{then_lift-ok}
use age_plugin_phone.Cbor.{Cbor}
use age_plugin_phone.Crypto.{Crypto}
use age_plugin_phone.Protocol.{Error, UnwrapResponse, Signed, PairingRecord, VerifiedRequest}
use age_plugin_phone.Protocol.Signing.{response_sig, hash}
use age_plugin_phone.Protocol.Messages.{encode_signed_response, decode_signed_response}
use age_plugin_phone.Protocol.Exchange.{open_response}
use age_plugin_phone.Protocol.Exchange.Checks.{ResponsePasses, open_response-checks}
use age_plugin_phone.Replay.{ReplayStore}
use age_plugin_phone.Unwrap.{
  UnwrapError, DesktopUnwrapSession, close, opened, receive_response, cancel,
}

-- What the command line does with a session, in any order.
pub data Event : Type 0 where
  receives : Bytes → ℕ → Event
  cancels : Event

abbrev keys_of : Result UnwrapError Bytes → List Bytes
keys_of (ok key) = key ∷ []
keys_of (err e) = []

module _ (c : Cbor) (x : Crypto) {S : Type 0} (store : ReplayStore S) where
  -- The file keys that an event gives out, and the session and the store that it leaves.
  unfoldable pub handle :
      Event → DesktopUnwrapSession x × S → List Bytes × (DesktopUnwrapSession x × S)
  handle (receives encoded now) p =
      let out = receive_response c x store encoded now p in (keys_of out.0, out.1)
  handle cancels p = ([], cancel c x store p)

  unfoldable pub run :
      List Event → DesktopUnwrapSession x × S → List Bytes × (DesktopUnwrapSession x × S)
  run [] p = ([], p)
  run (e ∷ events) p =
      let first = handle e p in let rest = run events first.1 in (first.0 ++ rest.0, rest.1)

  abbrev session_of : VerifiedRequest → x.Scalar → PairingRecord → Bool → DesktopUnwrapSession x
  session_of request secret pairing closed = record {
    request = request;
    desktop_session = secret;
    pairing = pairing;
    closed = closed;
  }

  opened_closes :
      (r : Result Error (Signed UnwrapResponse)) (now : ℕ) (s : DesktopUnwrapSession x) (replay : S)
      → (opened c x store r now (s, replay)).1.0 ≡ s
  unfolding opened
  opened_closes (ok response) now s replay = refl
  opened_closes (err e) now s replay = refl

  handle_closes :
      (e : Event) (request : VerifiedRequest) (secret : x.Scalar) (pairing : PairingRecord)
      (closed : Bool) (replay : S)
      → (handle e (session_of request secret pairing closed, replay)).1.0
        ≡ session_of request secret pairing true
  unfolding handle receive_response cancel
  handle_closes (receives encoded now) request secret pairing true replay = refl
  handle_closes (receives encoded now) request secret pairing false replay =
      opened_closes (decode_signed_response c x encoded) now
        (session_of request secret pairing true) replay
  handle_closes cancels request secret pairing closed replay = refl

  handle_closed :
      (e : Event) (request : VerifiedRequest) (secret : x.Scalar) (pairing : PairingRecord)
      (replay : S)
      → handle e (session_of request secret pairing true, replay)
        ≡ ([], (session_of request secret pairing true, replay))
  unfolding handle receive_response cancel
  handle_closed (receives encoded now) request secret pairing replay = refl
  handle_closed cancels request secret pairing replay = refl

  run_closed :
      (events : List Event) (request : VerifiedRequest) (secret : x.Scalar)
      (pairing : PairingRecord) (replay : S)
      → run events (session_of request secret pairing true, replay)
        ≡ ([], (session_of request secret pairing true, replay))
  unfolding run
  run_closed [] request secret pairing replay = refl
  run_closed (e ∷ events) request secret pairing replay = simp (
    handle_closed e request secret pairing replay,
    run_closed events request secret pairing replay,
  )

  -- Only the first event counts: whatever follows it gives out no file key and leaves the session and
  -- the replay store as they are.
  pub run_first :
      (e : Event) (events : List Event) (s : DesktopUnwrapSession x) (replay : S)
      → run (e ∷ events) (s, replay) ≡ handle e (s, replay)
  unfolding run
  run_first e events s replay =
      let first = handle e (s, replay) in
      let closes : first.1.0 ≡ close x s =
        handle_closes e s.request s.desktop_session s.pairing s.closed replay in
      let rest : run events first.1 ≡ ([], first.1) =
        subst (λ t. run events (t, first.1.1) ≡ ([], (t, first.1.1))) (sym closes)
          (run_closed events s.request s.desktop_session s.pairing first.1.1) in
      ap (λ (r : List Bytes × (DesktopUnwrapSession x × S)). (first.0 ++ r.0, r.1)) rest
      ∙ ap (λ (keys : List Bytes). (keys, first.1)) (append-nil first.0)

  -- The file key is what a response holds that passed every check of `open_response` for the request
  -- of the session, and that the replay store took.
  abbrev pub IsAnswer : DesktopUnwrapSession x → S → Bytes → Type 0
  IsAnswer s replay key =
      (response : Signed UnwrapResponse) × (now : ℕ) × ResponsePasses c x store response s.request
        s.pairing s.desktop_session now key
      × ((store.consume_response s.pairing.desktop_id s.pairing.identity_id
            (hash x response_sig (encode_signed_response c x response))
            s.request.signed.payload.expires_at_unix now replay).0
          ≡ ok tt)

  open_response-IsAnswer :
      (response : Signed UnwrapResponse) (now : ℕ) (s : DesktopUnwrapSession x) (replay : S)
      (key : Bytes)
      → (open_response c x store response s.request s.pairing s.desktop_session now replay).0
        ≡ ok key
      → IsAnswer s replay key
  open_response-IsAnswer response now s replay key e =
      elim (open_response-checks c x store response s.request s.pairing s.desktop_session now
        replay) [
          | inl (error, r) ↦ (let fails = ap (λ p. p.0) r in cc)
          | inr (plaintext, passes, r) ↦
              (let (taken, same) =
                  then_lift-ok
                    (store.consume_response s.pairing.desktop_id s.pairing.identity_id
                      (hash x response_sig (encode_signed_response c x response))
                      s.request.signed.payload.expires_at_unix now)
                    plaintext key replay (sym (ap (λ p. p.0) r) ∙ e) in
                (
                  response,
                  now,
                  subst
                      (ResponsePasses c x store response s.request s.pairing s.desktop_session now)
                      same passes,
                  taken,
                ))
        ]

  opened-IsAnswer :
      (r : Result Error (Signed UnwrapResponse)) (now : ℕ) (s : DesktopUnwrapSession x) (replay : S)
      → All (IsAnswer s replay) (keys_of (opened c x store r now (s, replay)).0)
        × (length (keys_of (opened c x store r now (s, replay)).0) ≤ 1)
  unfolding opened
  opened-IsAnswer (err e) now s replay = (tt, omega arith)
  opened-IsAnswer (ok response) now s replay =
      elim (Result-cases
        (open_response c x store response s.request s.pairing s.desktop_session now replay).0) [
          | inl (key, e) ↦
              rw e ((open_response-IsAnswer response now s replay key e, tt), omega arith)
          | inr (error, e) ↦ rw e (tt, omega arith)
        ]

  handle-IsAnswer :
      (e : Event) (s : DesktopUnwrapSession x) (replay : S)
      → All (IsAnswer s replay) (handle e (s, replay)).0 × (length (handle e (s, replay)).0 ≤ 1)
  unfolding handle receive_response cancel
  handle-IsAnswer cancels s replay = (tt, omega arith)
  handle-IsAnswer (receives encoded now) s replay = elim (Bool-cases s.closed) [
    | inl y ↦ rw y (tt, omega arith)
    | inr n ↦ rw n (opened-IsAnswer (decode_signed_response c x encoded) now (close x s) replay)
  ]

  -- Whatever is received and however often, a session gives out one file key at most, and that is the
  -- plaintext of a response that passed every check for the request of the session and that the
  -- replay store took.
  pub unwrapped_once :
      (events : List Event) (s : DesktopUnwrapSession x) (replay : S)
      → All (IsAnswer s replay) (run events (s, replay)).0 × (length (run events (s, replay)).0 ≤ 1)
  unfolding run
  unwrapped_once [] s replay = (tt, omega arith)
  unwrapped_once (e ∷ events) s replay =
      subst
        (λ (r : List Bytes × (DesktopUnwrapSession x × S)).
          All (IsAnswer s replay) r.0 × (length r.0 ≤ 1))
        (sym (run_first e events s replay)) (handle-IsAnswer e s replay)
