-- ===== src/Unwrap.antt =====
-- crates/desktop/src/unwrap.rs: the desktop's side of one unwrap of a file key, over any replay store.
pub mod Once
pub mod Answered
use age_plugin_phone.Base.{
  ℕ, Bool, true, false, not, ◌&&◌, ◌||◌, Option, List, Bytes, bytes_eq, if◌then◌else◌, Result, ok,
  err, refuse, ◌>>=◌, ◌>>◌,
}
use age_plugin_phone.Base.Exec.{Exec}
use age_plugin_phone.Cbor.{Cbor}
use age_plugin_phone.Crypto.{Crypto}
use age_plugin_phone.Recipient.{TaggedStanza, P256KeyAgreement}
use age_plugin_phone.Recipient.Stanza.{map_err}
use age_plugin_phone.Protocol.{
  Error, UnwrapResponse, UnwrapRequest, Signed, PairingRecord, VerifiedRequest,
}
use age_plugin_phone.Protocol.Time.{request_expiry}
use age_plugin_phone.Protocol.Signing.{P256Signer, encode_public}
use age_plugin_phone.Protocol.Messages.{
  create_request, encode_signed_request, decode_signed_response,
}
use age_plugin_phone.Protocol.Exchange.{open_response}
use age_plugin_phone.Replay.{ReplayStore}
use age_plugin_phone.Pairing.{PairingError, PublicIdentityStub, hex}

pub record UnwrapDisplay : Type 0 where
  pub request_fingerprint : Bytes
  pub expires_at_unix : ℕ

pub data UnwrapError : Type 0 where
  wrong_desktop_state request session_closed invalid_response clock : UnwrapError

-- The identifier in the state file, and the two keys behind it.
pub record DesktopKeyState : Type 0 where
  pub desktop_id : Bytes
  pub signer : P256Signer
  pub agreement : P256KeyAgreement

abbrev pub signing_public_key : DesktopKeyState → Result PairingError Bytes
signing_public_key desktop = map_err desktop.signer.public_key PairingError.state

abbrev pub selection_public_key : DesktopKeyState → Result PairingError Bytes
selection_public_key desktop = map_err desktop.agreement.public_key PairingError.state

-- The pairing that a stub stands for.
abbrev pub pairing_of : PublicIdentityStub → PairingRecord
pairing_of stub = record {
  desktop_id = stub.desktop_id;
  identity_id = stub.identity_id;
  desktop_signing_public_key = stub.desktop_signing_public_key;
  desktop_selection_public_key = stub.desktop_selection_public_key;
  phone_signing_public_key = stub.phone_signing_public_key;
}

module _ (x : Crypto) where
  pub record DesktopUnwrapSession : Type 0 where
    pub request : VerifiedRequest
    pub desktop_session : x.Scalar
    pub pairing : PairingRecord
    pub closed : Bool

  abbrev pub close : DesktopUnwrapSession → DesktopUnwrapSession
  close s = record s { closed = true }

-- The identifier is compared first, and a key is only asked for when what comes before it agrees.
unfoldable pub check_desktop : PublicIdentityStub → DesktopKeyState → Result UnwrapError (Unit {0})
check_desktop stub desktop = do
  refuse (not (bytes_eq desktop.desktop_id stub.desktop_id)) wrong_desktop_state
  signing ← map_err (signing_public_key desktop) wrong_desktop_state
  refuse (not (bytes_eq signing stub.desktop_signing_public_key)) wrong_desktop_state
  selection ← map_err (selection_public_key desktop) wrong_desktop_state
  refuse (not (bytes_eq selection stub.desktop_selection_public_key)) wrong_desktop_state

module _ (c : Cbor) (x : Crypto) where
  -- The session key, the identifier and the nonce are drawn at random.
  unfoldable pub begin :
      PublicIdentityStub
      → DesktopKeyState
      → TaggedStanza
      → Option Bytes
      → ℕ
      → x.Scalar
      → Bytes
      → Bytes
      → Result UnwrapError (DesktopUnwrapSession x)
  unfolding check_desktop
  begin stub desktop stanza caller_hint now desktop_session request_id nonce = do
    check_desktop stub desktop
    expires ← map_err (request_expiry now) UnwrapError.request
    created ←
        map_err
          (create_request c x
            (record {
              request_id = request_id;
              identity_id = stub.identity_id;
              desktop_id = stub.desktop_id;
              session_public_key = encode_public x (x.public_key desktop_session);
              recipient_stanza = stanza;
              nonce = nonce;
              expires_at_unix = expires;
              caller_hint = caller_hint;
            })
            desktop.signer (pairing_of stub) now)
          UnwrapError.request
    ok (record {
      request = created;
      desktop_session = desktop_session;
      pairing = pairing_of stub;
      closed = false;
    })

  unfoldable pub signed_request : DesktopUnwrapSession x → Bytes
  signed_request s = encode_signed_request c x s.request.signed

  unfoldable pub display : DesktopUnwrapSession x → UnwrapDisplay
  display s = record {
    request_fingerprint = hex s.request.digest;
    expires_at_unix = s.request.signed.payload.expires_at_unix;
  }

  module _ {S : Type 0} (store : ReplayStore S) where
    -- What a decoded response, or the failure of decoding one, does to the session and the store.
    unfoldable pub opened :
        Result Error (Signed UnwrapResponse)
        → ℕ
        → Exec (DesktopUnwrapSession x × S) UnwrapError Bytes
    opened (ok response) now (s, replay) =
        let out =
          open_response c x store response s.request s.pairing s.desktop_session now replay in
        (map_err out.0 invalid_response, (s, out.1))
    opened (err e) now (s, replay) = (err invalid_response, (s, replay))

    unfoldable pub receive_response :
        Bytes → ℕ → Exec (DesktopUnwrapSession x × S) UnwrapError Bytes
    unfolding opened
    receive_response encoded now (s, replay) =
        if s.closed
        then (err session_closed, (s, replay))
        else opened (decode_signed_response c x encoded) now (close x s, replay)

    unfoldable pub cancel : DesktopUnwrapSession x × S → DesktopUnwrapSession x × S
    cancel (s, replay) = (close x s, replay)
