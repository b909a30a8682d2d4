-- ===== src/Pairing/Session.antt =====
-- crates/desktop/src/pairing.rs: `DesktopPairingSession`, its states and its beginning.
pub mod Steps
pub mod Once
pub mod Complete
pub mod Honest
use age_plugin_phone.Base.{ℕ, Bool, true, false, Bytes, Result, ok, err, ◌>>=◌, ◌>>◌}
use age_plugin_phone.Cbor.{Cbor}
use age_plugin_phone.Crypto.{Crypto}
use age_plugin_phone.Recipient.Stanza.{map_err}
use age_plugin_phone.Protocol.{Error, PairingOffer, PairingResponse, Signed}
use age_plugin_phone.Protocol.Signing.{P256Signer}
use age_plugin_phone.Protocol.Messages.{
  sign_offer, offer_digest, encode_signed_offer, decode_signed_pairing_response,
  verify_pairing_response, pairing_fingerprint,
}
use age_plugin_phone.Pairing.{
  max_pairing_session_age_ms, PairingError, session_closed, timeout, invalid_response,
  fingerprint_mismatch, PublicIdentityStub, hex,
}

pub record PairingDisplay : Type 0 where
  pub desktop_label : Bytes
  pub transcript_fingerprint : Bytes

pub data State : Type 0 where
  waiting : State
  confirming : Signed PairingResponse → Bytes → State
  closed : State

pub record DesktopPairingSession : Type 0 where
  pub offer : Signed PairingOffer
  pub started_at_ms : ℕ
  pub state : State

abbrev pub is_closed : State → Bool
is_closed closed = true
is_closed waiting = false
is_closed (confirming response fingerprint) = false

abbrev pub close : DesktopPairingSession → DesktopPairingSession
close s = record s { state = closed }

module _ (c : Cbor) (x : Crypto) where
  -- The nonce is drawn at random.
  unfoldable pub begin :
      Bytes → Bytes → P256Signer → Bytes → ℕ → Bytes → Result PairingError DesktopPairingSession
  begin desktop_id label signing_key selection now nonce = do
    own ← map_err signing_key.public_key invalid_response
    offer ←
        map_err
          (sign_offer c x
            (record {
              desktop_id = desktop_id;
              desktop_label = label;
              desktop_signing_public_key = own;
              desktop_selection_public_key = selection;
              nonce = nonce;
            })
            signing_key)
          invalid_response
    ok (record { offer = offer; started_at_ms = now; state = waiting })

  -- `decode` and then `verify` of `receive_response`.
  unfoldable pub authenticate : Signed PairingOffer → Bytes → Result Error (Signed PairingResponse)
  authenticate offer encoded = do
    response ← decode_signed_pairing_response c x encoded
    verify_pairing_response c x response offer
    ok response

  unfoldable pub stub_from_response :
      Signed PairingOffer → Signed PairingResponse → Bytes → PublicIdentityStub
  stub_from_response offer response fingerprint = record {
    desktop_id = offer.payload.desktop_id;
    identity_id = response.payload.identity_id;
    recipient = response.payload.recipient;
    desktop_signing_public_key = offer.payload.desktop_signing_public_key;
    desktop_selection_public_key = offer.payload.desktop_selection_public_key;
    phone_signing_public_key = response.payload.phone_signing_public_key;
    offer_digest = offer_digest c x offer;
    transcript_fingerprint = fingerprint;
  }
