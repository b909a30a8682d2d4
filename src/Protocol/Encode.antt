-- ===== src/Protocol/Encode.antt =====
-- crates/core/src/protocol/mod.rs: the canonical encoders. An encoder that writes in the middle of a
-- message takes what is written behind it.
use age_plugin_phone.Base.{ℕ, Option, some, none, List, [], ◌∷◌, ◌++◌, Bytes, length}
use age_plugin_phone.Cbor.{Cbor}
use age_plugin_phone.Recipient.{TaggedStanza}
use age_plugin_phone.Protocol.{
  protocol_version, algorithm_suite, PairingOffer, PairingResponse, UnwrapRequest, UnwrapResponse,
}

abbrev pub offer_kind : ℕ
offer_kind = 1

abbrev pub pairing_response_kind : ℕ
pairing_response_kind = 2

abbrev pub request_kind : ℕ
request_kind = 3

abbrev pub response_kind : ℕ
response_kind = 4

module _ (c : Cbor) where
  open c use {put_array, put_u16, put_u64, put_bytes, put_str, put_null}

  unfoldable pub header : ℕ → ℕ → Bytes → Bytes
  header len kind rest =
      put_array len
      ++ (put_u16 protocol_version ++ (put_u16 kind ++ (put_u16 algorithm_suite ++ rest)))

  unfoldable pub encode_offer : PairingOffer → Bytes
  encode_offer v = header 8 offer_kind (
      put_bytes v.desktop_id
      ++ (put_str v.desktop_label
          ++ (put_bytes v.desktop_signing_public_key
              ++ (put_bytes v.desktop_selection_public_key ++ (put_bytes v.nonce ++ [])))))

  unfoldable pub encode_pairing_response : PairingResponse → Bytes
  encode_pairing_response v = header 8 pairing_response_kind (
      put_bytes v.identity_id
      ++ (put_str v.recipient
          ++ (put_bytes v.phone_signing_public_key
              ++ (put_bytes v.offer_digest ++ (put_bytes v.nonce ++ [])))))

  -- The loop over the arguments.
  unfoldable pub encode_args : List Bytes → Bytes → Bytes
  encode_args [] rest = rest
  encode_args (argument ∷ args) rest = put_str argument ++ encode_args args rest

  unfoldable pub encode_stanza : TaggedStanza → Bytes → Bytes
  encode_stanza v rest =
      put_array 3
      ++ (put_str v.tag
          ++ (put_array (length v.args) ++ encode_args v.args (put_bytes v.body ++ rest)))

  unfoldable pub encode_hint : Option Bytes → Bytes
  encode_hint (some s) = put_str s ++ []
  encode_hint none = put_null ++ []

  unfoldable pub encode_request : UnwrapRequest → Bytes
  encode_request v = header 11 request_kind (
      put_bytes v.request_id
      ++ (put_bytes v.identity_id
          ++ (put_bytes v.desktop_id
              ++ (put_bytes v.session_public_key
                  ++ encode_stanza v.recipient_stanza (
                      put_bytes v.nonce
                      ++ (put_u64 v.expires_at_unix ++ encode_hint v.caller_hint))))))

  -- The fields that the response and its associated data have in common.
  unfoldable pub response_fields : UnwrapResponse → Bytes → Bytes
  response_fields v rest =
      put_bytes v.request_id
      ++ (put_bytes v.request_digest
          ++ (put_bytes v.identity_id
              ++ (put_bytes v.desktop_id
                  ++ (put_bytes v.phone_session_public_key ++ (put_bytes v.nonce ++ rest)))))

  unfoldable pub encode_response : UnwrapResponse → Bytes
  unfolding response_fields
  encode_response v =
      header 10 response_kind (response_fields v (put_bytes v.encrypted_file_key ++ []))

  unfoldable pub response_aad : UnwrapResponse → Bytes
  unfolding response_fields
  response_aad v = header 9 response_kind (response_fields v [])

  -- `signed`
  unfoldable pub encode_signed : Bytes → Bytes → Bytes
  encode_signed payload signature =
      put_array 2 ++ (put_bytes payload ++ (put_bytes signature ++ []))
