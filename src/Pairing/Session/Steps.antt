-- ===== src/Pairing/Session/Steps.antt =====
-- crates/desktop/src/pairing.rs: the steps of `DesktopPairingSession`. Each returns the outcome and the
-- session that it leaves.
use age_plugin_phone.Base.{ℕ, ◌-◌, Bool, ◌||◌, Bytes, bytes_eq, ltb, if◌then◌else◌, Result, ok, err}
use age_plugin_phone.Base.Exec.{Exec, ◌>>◌}
use age_plugin_phone.Cbor.{Cbor}
use age_plugin_phone.Crypto.{Crypto}
use age_plugin_phone.Protocol.{Error, PairingResponse, Signed}
use age_plugin_phone.Protocol.Messages.{pairing_fingerprint}
use age_plugin_phone.Pairing.{
  max_pairing_session_age_ms, PairingError, session_closed, timeout, invalid_response,
  fingerprint_mismatch, PublicIdentityStub, hex,
}
use age_plugin_phone.Pairing.Session.{
  PairingDisplay, State, waiting, confirming, closed, DesktopPairingSession, is_closed, close,
  authenticate, stub_from_response,
}

unfoldable pub out_of_time : ℕ → ℕ → Bool
out_of_time started now = ltb now started || ltb max_pairing_session_age_ms (now - started)

unfoldable pub ensure_live : ℕ → Exec DesktopPairingSession PairingError (Unit {0})
unfolding out_of_time
ensure_live now s =
    if is_closed s.state
    then (err session_closed, s)
    else if out_of_time s.started_at_ms now
    then (err timeout, close s)
    else (ok tt, s)

module _ (c : Cbor) (x : Crypto) where
  -- What an authenticated response, or the failure of one, does to the session.
  unfoldable pub received :
      Result Error (Signed PairingResponse) → Exec DesktopPairingSession PairingError PairingDisplay
  received (ok response) s =
      let fingerprint = pairing_fingerprint c x s.offer response in
      (
        ok (record {
          desktop_label = s.offer.payload.desktop_label;
          transcript_fingerprint = hex fingerprint;
        }),
        record s { state = confirming response fingerprint },
      )
  received (err e) s = (err invalid_response, close s)

  unfoldable pub receive_in : State → Bytes → Exec DesktopPairingSession PairingError PairingDisplay
  unfolding received
  receive_in waiting encoded s = received (authenticate c x s.offer encoded) s
  receive_in (confirming response fingerprint) encoded s = (err session_closed, close s)
  receive_in closed encoded s = (err session_closed, close s)

  unfoldable pub receive_response :
      Bytes → ℕ → Exec DesktopPairingSession PairingError PairingDisplay
  unfolding ensure_live receive_in
  receive_response encoded now = do ensure_live now; λ s. receive_in s.state encoded s

  unfoldable pub confirm_in :
      State → Bytes → Exec DesktopPairingSession PairingError PublicIdentityStub
  confirm_in (confirming response fingerprint) displayed s =
      if bytes_eq displayed (hex fingerprint)
      then (ok (stub_from_response c x s.offer response fingerprint), close s)
      else (err fingerprint_mismatch, close s)
  confirm_in waiting displayed s = (err session_closed, close s)
  confirm_in closed displayed s = (err session_closed, close s)

  unfoldable pub confirm : Bytes → ℕ → Exec DesktopPairingSession PairingError PublicIdentityStub
  unfolding ensure_live confirm_in
  confirm displayed now = do ensure_live now; λ s. confirm_in s.state displayed s

  unfoldable pub pending_stub : DesktopPairingSession → Result PairingError PublicIdentityStub
  pending_stub s = elim s.state [
    | waiting ↦ err session_closed
    | confirming response fingerprint ↦ ok (stub_from_response c x s.offer response fingerprint)
    | closed ↦ err session_closed
  ]

-- What the command line does with a session, in any order.
pub data Action : Type 0 where
  receives : Bytes → ℕ → Action
  confirms : Bytes → ℕ → Action
  cancels : Action
