-- ===== src/Pairing/Session/Once.antt =====
-- What a pairing session of crates/desktop/src/pairing.rs can confirm, whatever is done with it.
use age_plugin_phone.Base.{
  ℕ, ◌+◌, ◌≤◌, ◌≡◌, refl, sym, ap, ◌∙◌, inl, inr, List, [], ◌∷◌, ◌++◌, arith, Bytes, bytes_eq,
  length, All, All-append, length-append, Result, ok, err, Bool-cases, Result-cases, >>=-eq-ok,
  ok_injective,
}
use mathlib.Core.Path.{subst}
use age_plugin_phone.Cbor.{Cbor}
use age_plugin_phone.Crypto.{Crypto}
use age_plugin_phone.Protocol.{PairingOffer, PairingResponse, Signed}
use age_plugin_phone.Protocol.Messages.{
  decode_signed_pairing_response, verify_pairing_response, pairing_fingerprint,
}
use age_plugin_phone.Pairing.{PairingError, PublicIdentityStub, hex}
use age_plugin_phone.Pairing.Session.{
  State, waiting, confirming, closed, DesktopPairingSession, close, authenticate,
  stub_from_response,
}
use age_plugin_phone.Pairing.Session.Steps.{
  Action, receives, confirms, cancels, out_of_time, received, receive_response, confirm,
}

module _ (c : Cbor) (x : Crypto) where
  -- The response on display was verified for the offer, and what is displayed is the fingerprint of both.
  abbrev pub StateFits : Signed PairingOffer → State → Type 0
  StateFits offer waiting = Unit
  StateFits offer (confirming response fingerprint) =
      (verify_pairing_response c x response offer ≡ ok tt)
      × (fingerprint ≡ pairing_fingerprint c x offer response)
  StateFits offer closed = Unit

  -- The stub of a response that was verified for the offer.
  abbrev pub IsPaired : Signed PairingOffer → PublicIdentityStub → Type 0
  IsPaired offer stub =
      (response : Signed PairingResponse) × (verify_pairing_response c x response offer ≡ ok tt)
      × (stub ≡ stub_from_response c x offer response (pairing_fingerprint c x offer response))

  -- How many stubs the session can still give.
  abbrev left : State → ℕ
  left closed = 0
  left waiting = 1
  left (confirming response fingerprint) = 1

  abbrev stubs_of : Result PairingError PublicIdentityStub → List PublicIdentityStub
  stubs_of (ok stub) = stub ∷ []
  stubs_of (err e) = []

  -- The stubs that an action gives out, and the session that it leaves.
  unfoldable pub act :
      Action → DesktopPairingSession → List PublicIdentityStub × DesktopPairingSession
  act (receives encoded now) s = ([], (receive_response c x encoded now s).1)
  act (confirms displayed now) s = let out = confirm c x displayed now s in (stubs_of out.0, out.1)
  act cancels s = ([], close s)

  unfoldable pub run :
      List Action → DesktopPairingSession → List PublicIdentityStub × DesktopPairingSession
  run [] s = ([], s)
  run (a ∷ actions) s =
      let first = act a s in let rest = run actions first.1 in (first.0 ++ rest.0, rest.1)

  authenticate_ok :
      (offer : Signed PairingOffer) (encoded : Bytes) (response : Signed PairingResponse)
      → authenticate c x offer encoded ≡ ok response
      → verify_pairing_response c x response offer ≡ ok tt
  unfolding authenticate
  authenticate_ok offer encoded response e =
      let (decoded, _, e1) = >>=-eq-ok _ (decode_signed_pairing_response c x encoded) e in
      let (_, verified, e2) = >>=-eq-ok _ (verify_pairing_response c x decoded offer) e1 in
      let same = ok_injective decoded response (ok decoded) refl e2 in
      subst (λ r. verify_pairing_response c x r offer ≡ ok tt) same verified

  -- One action: what it gives out, and what the session is afterwards.
  abbrev Acted : DesktopPairingSession → List PublicIdentityStub × DesktopPairingSession → Type 0
  Acted s (stubs, t) =
      (t.offer ≡ s.offer)
      × StateFits s.offer t.state
      × All (IsPaired s.offer) stubs
      × (length stubs + left t.state ≤ left s.state)

  abbrev session : Signed PairingOffer → ℕ → State → DesktopPairingSession
  session offer started state = record { offer = offer; started_at_ms = started; state = state }

  received-Acted :
      (offer : Signed PairingOffer) (started : ℕ) (encoded : Bytes)
      → Acted
          (session offer started waiting)
          ([], (received c x (authenticate c x offer encoded) (session offer started waiting)).1)
  unfolding received
  received-Acted offer started encoded = elim (Result-cases (authenticate c x offer encoded)) [
    | inl (response, e) ↦
        rw e (refl, (authenticate_ok offer encoded response e, refl), tt, omega arith)
    | inr (error, e) ↦ rw e (refl, tt, tt, omega arith)
  ]

  receives-Acted :
      (offer : Signed PairingOffer) (started : ℕ) (state : State) (encoded : Bytes) (now : ℕ)
      → StateFits offer state
      → Acted
          (session offer started state)
          ([], (receive_response c x encoded now (session offer started state)).1)
  unfolding receive_response
  receives-Acted offer started closed encoded now f = (refl, tt, tt, omega arith)
  receives-Acted offer started waiting encoded now f = elim (Bool-cases (out_of_time started now)) [
    | inl y ↦ rw y (refl, tt, tt, omega arith)
    | inr n ↦ rw n (received-Acted offer started encoded)
  ]
  receives-Acted offer started (confirming response fingerprint) encoded now f =
      elim (Bool-cases (out_of_time started now)) [
        | inl y ↦ rw y (refl, tt, tt, omega arith)
        | inr n ↦ rw n (refl, tt, tt, omega arith)
      ]

  confirms-Acted :
      (offer : Signed PairingOffer) (started : ℕ) (state : State) (displayed : Bytes) (now : ℕ)
      → StateFits offer state
      → let out = confirm c x displayed now (session offer started state) in
        Acted (session offer started state) (stubs_of out.0, out.1)
  unfolding confirm
  confirms-Acted offer started closed displayed now f = (refl, tt, tt, omega arith)
  confirms-Acted offer started waiting displayed now f =
      elim (Bool-cases (out_of_time started now)) [
        | inl y ↦ rw y (refl, tt, tt, omega arith)
        | inr n ↦ rw n (refl, tt, tt, omega arith)
      ]
  confirms-Acted offer started (confirming response fingerprint) displayed now f =
      elim (Bool-cases (out_of_time started now)) [
        | inl y ↦ rw y (refl, tt, tt, omega arith)
        | inr n ↦ elim (Bool-cases (bytes_eq displayed (hex fingerprint))) [
          | inl y ↦
              rw (n, y)
                (
                  refl,
                  tt,
                  ((response, f.0, ap (stub_from_response c x offer response) f.1), tt),
                  omega arith,
                )
          | inr m ↦ rw (n, m) (refl, tt, tt, omega arith)
        ]
      ]

  act-Acted :
      (a : Action) (s : DesktopPairingSession) → StateFits s.offer s.state → Acted s (act a s)
  unfolding act
  act-Acted (receives encoded now) s f =
      receives-Acted s.offer s.started_at_ms s.state encoded now f
  act-Acted (confirms displayed now) s f =
      confirms-Acted s.offer s.started_at_ms s.state displayed now f
  act-Acted cancels s f = (refl, tt, tt, omega arith)

  run-Acted :
      (actions : List Action) (s : DesktopPairingSession)
      → StateFits s.offer s.state
      → Acted s (run actions s)
  unfolding run
  run-Acted [] s f = (refl, f, tt, omega arith)
  run-Acted (a ∷ actions) s f =
      let first = act a s in
      let (same, fits, paired, fewer) = act-Acted a s f in
      let (same', fits', paired', fewer') =
        run-Acted actions first.1 (subst (λ o. StateFits o first.1.state) (sym same) fits) in
      let stubs = (run actions first.1).0 in
      (
        same' ∙ same,
        subst (λ o. StateFits o (run actions first.1).1.state) same fits',
        All-append (IsPaired s.offer) first.0 stubs paired
            (subst (λ o. All (IsPaired o) stubs) same paired'),
        omega (arith, length-append first.0 stubs),
      )

  left_le : (state : State) → left state ≤ 1
  left_le waiting = omega arith
  left_le (confirming response fingerprint) = omega arith
  left_le closed = omega arith

  -- Whatever is received, confirmed and cancelled, in whatever order and at whatever times, a session
  -- gives out one stub at most, and that is the stub of a response that was verified for the session's
  -- offer. The session has just begun, or holds a verified response.
  pub confirmed_once :
      (actions : List Action) (s : DesktopPairingSession)
      → StateFits s.offer s.state
      → (length (run actions s).0 ≤ 1) × All (IsPaired s.offer) (run actions s).0
  confirmed_once actions s f =
      let (_, _, paired, fewer) = run-Acted actions s f in (omega (arith, left_le s.state), paired)
