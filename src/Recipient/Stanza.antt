-- ===== src/Recipient/Stanza.antt =====
-- crates/core/src/recipient/mod.rs: `ParsedStanza` and `validate_stanza`.
use age_plugin_phone.Base.{
  value_of, ap, ◌≡◌, ◌||◌, Option, some, none, List, [], ◌∷◌, Bytes, length, bytes_eq, ◌==◌,
  if◌then◌else◌, Result, ok, err, ok_or, ensure, ◌>>=◌, ◌>>◌,
}
use age_plugin_phone.Crypto.{Crypto}
use age_plugin_phone.Recipient.{
  Error, TaggedStanza, stanza_tag, stanza_tag_v2, stanza_body_bytes, invalid_stanza_arguments,
  unknown_stanza_type, invalid_body_length, invalid_ephemeral_encoding, decode_base64_exact,
  from_public_key_bytes, compressed_point_bytes,
}

pub data StanzaVersion : Type 0 where
  v1 v2 : StanzaVersion

pub record ParsedStanza (Point : Type 0) : Type 0 where
  pub version : StanzaVersion
  pub ephemeral : Point
  pub ephemeral_bytes : Bytes
  pub selection : Option Bytes
  pub body : Bytes

-- `error.map_err(|_| e)`
abbrev pub map_err {κ ℓ} : {E F : Type κ} {A : Type ℓ} → Result E A → F → Result F A
map_err (ok a) e = ok a
map_err (err _) e = err e

pub map_err-ok {κ ℓ} :
    {E F : Type κ} {A : Type ℓ} (r : Result E A) (e : F) (a : A) → map_err r e ≡ ok a → r ≡ ok a
map_err-ok (ok value) e a h = ap (λ s. ok (value_of s value)) h
map_err-ok (err reason) e a h = cc

module _ (x : Crypto) where
  open x use {Point, base64_encode, base64_decode}

  -- The `match` on the tag and the arguments, by the number of arguments.
  unfoldable pub select_argument :
      Bytes → List Bytes → Result Error (StanzaVersion × Bytes × Option Bytes)
  unfolding decode_base64_exact
  select_argument tag (argument ∷ []) =
      if bytes_eq tag stanza_tag
      then ok (v1, argument, none)
      else if bytes_eq tag stanza_tag_v2
      then err invalid_stanza_arguments
      else err unknown_stanza_type
  select_argument tag (argument ∷ selection ∷ []) =
      if bytes_eq tag stanza_tag_v2
      then (do
        decoded ← decode_base64_exact x selection stanza_body_bytes
        ok (v2, argument, some decoded))
      else if bytes_eq tag stanza_tag
      then err invalid_stanza_arguments
      else err unknown_stanza_type
  select_argument tag _ =
      if bytes_eq tag stanza_tag || bytes_eq tag stanza_tag_v2
      then err invalid_stanza_arguments
      else err unknown_stanza_type

  unfoldable pub parse_ephemeral :
      TaggedStanza → StanzaVersion → Bytes → Option Bytes → Result Error (ParsedStanza Point)
  parse_ephemeral stanza version argument selection = do
    ensure (length stanza.body == stanza_body_bytes) invalid_body_length
    decoded ← ok_or (base64_decode argument) invalid_ephemeral_encoding
    ensure (bytes_eq (base64_encode decoded) argument) invalid_ephemeral_encoding
    ephemeral ← map_err (from_public_key_bytes x decoded) invalid_ephemeral_encoding
    ensure (length decoded == compressed_point_bytes) invalid_ephemeral_encoding
    ok (record {
      version = version;
      ephemeral = ephemeral;
      ephemeral_bytes = decoded;
      selection = selection;
      body = stanza.body;
    })

  unfoldable pub parse : TaggedStanza → Result Error (ParsedStanza Point)
  parse stanza = do
    (version, argument, selection) ← select_argument stanza.tag stanza.args
    parse_ephemeral stanza version argument selection
