-- ===== src/Tests/Recipients.antt =====
-- Recipients and stanzas at concrete inputs.
use age_plugin_phone.Base.{
  ◌≡◌, refl, Bool, true, false, Bytes, codes, replicate, ok, bytes_eq, ◌∷◌, map, ◌+◌, ◌++◌, length,
}
use age_plugin_phone.Recipient.{
  TaggedStanza, PairedRecipient, P256KeyAgreement, recipient_to_string, parse_recipient,
  from_public_key_bytes, to_ascii_lowercase, public_key_bytes,
}
use age_plugin_phone.Recipient.Wrap.{wrap_file_key, wrap_file_key_v2}
use age_plugin_phone.Recipient.Open.{validate_stanza, unwrap_file_key, matches_stanza_v2}
use age_plugin_phone.Recipient.Tag.{tag_wrap, tag_matches}
use age_plugin_phone.Recipient.Keys.{parse_recipient_canonical}
use age_plugin_phone.Recipient.RoundTrip.{wrap-unwrap}
use age_plugin_phone.Recipient.Selection.{IsAgreement, wrap-matches-unwrap}
use age_plugin_phone.Recipient.TagRoundTrip.{tag_wrap-matches-unwrap}
use age_plugin_phone.Tests.Toy.{toy, toy-IsCrypto, flag, parse_point, compressed}

abbrev some_file_key : Bytes
some_file_key = codes "sixteen byte key"

wrap-unwrap_example :
    (stanza : TaggedStanza) × (wrap_file_key toy true some_file_key false ≡ ok stanza)
    × (validate_stanza toy stanza ≡ ok tt)
    × (unwrap_file_key toy true stanza ≡ ok some_file_key)
wrap-unwrap_example = wrap-unwrap toy toy-IsCrypto true false some_file_key refl

-- The agreement of the scalar `true`.
abbrev toy_agreement : P256KeyAgreement
toy_agreement = record {
  public_key = ok (compressed true);
  agree = λ peer. ok (flag (bytes_eq peer (compressed true)) ∷ replicate 31 0);
}

toy_agreement-IsAgreement : IsAgreement toy true toy_agreement
unfolding public_key_bytes bytes_eq
toy_agreement-IsAgreement = record {
  public_law = refl;
  agree_law = elim [ true ↦ refl | false ↦ refl ];
}

abbrev some_pairing : PairedRecipient Bool
some_pairing = record {
  phone_identity = false;
  desktop_selection = true;
  identity_id = codes "identity of 16 b";
}

wrap-matches-unwrap_example :
    (stanza : TaggedStanza) × (wrap_file_key_v2 toy some_pairing some_file_key true ≡ ok stanza)
    × (validate_stanza toy stanza ≡ ok tt)
    × (matches_stanza_v2 toy some_pairing toy_agreement stanza ≡ ok true)
    × (unwrap_file_key toy false stanza ≡ ok some_file_key)
wrap-matches-unwrap_example =
    wrap-matches-unwrap toy toy-IsCrypto false true true toy_agreement (codes "identity of 16 b")
      some_file_key toy_agreement-IsAgreement refl refl

tag_wrap-matches-unwrap_example :
    (stanza : TaggedStanza) × (tag_wrap toy true some_file_key true ≡ ok stanza)
    × (validate_stanza toy stanza ≡ ok tt)
    × (tag_matches toy true stanza ≡ ok true)
    × (unwrap_file_key toy true stanza ≡ ok some_file_key)
tag_wrap-matches-unwrap_example =
    tag_wrap-matches-unwrap toy toy-IsCrypto true true some_file_key refl

abbrev some_text : Bytes
some_text =
    map (λ b. b + 128) (length (codes "age1phone") ∷ (codes "age1phone" ++ (1 ∷ compressed true)))

some_text_parses : parse_recipient toy some_text ≡ ok true
unfolding parse_recipient recipient_to_string public_key_bytes from_public_key_bytes
    to_ascii_lowercase bytes_eq parse_point
some_text_parses = refl

parse_recipient_canonical_example : recipient_to_string toy true ≡ ok some_text
parse_recipient_canonical_example = parse_recipient_canonical toy some_text true some_text_parses
